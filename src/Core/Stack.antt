-- ===== src/Core/Stack.antt =====
-- core/util.go: the stack and the chain of causes of an error. What `runtime.Callers` and `errors.Unwrap` find
-- enters as a list.
use Prim.Native.String.{◌++◌ as str_append}
use duckbug_go.Base.{ℕ, String, str_eq, ◌&&◌, List, [], ◌∷◌, if◌then◌else◌}
use duckbug_go.Base.Int.{pos}
use duckbug_go.Text.{trim_space, itoa}
use duckbug_go.Value.{Value, str, int, maps, Fields, end, field, Maps, no_maps, cons_map}
use duckbug_go.Core.Scope.{append_map}

-- The frames of a call stack, as the runtime reports them.
pub record Frame : Type 0 where
  pub file : String
  pub function : String
  pub line : ℕ

pub record Stack : Type 0 where
  pub frames : Maps
  pub top_file : String
  pub top_line : ℕ
  pub printed : String

abbrev frame_map : Frame → Fields
frame_map f =
    field "file" (str f.file)
      (field "line" (int (pos f.line)) (field "function" (str f.function) end))

abbrev frame_text : Frame → String
frame_text f =
    str_append f.function
      (str_append "\n\t" (str_append f.file (str_append ":" (str_append (itoa f.line) "\n"))))

-- The body of the loop over the frames.
abbrev add_frame : Frame → Stack → Stack
add_frame f s = if str_eq f.file "" && str_eq f.function "" then s else record {
  frames = append_map (frame_map f) s.frames;
  top_file = if str_eq s.top_file "" then f.file else s.top_file;
  top_line = if str_eq s.top_file "" then f.line else s.top_line;
  printed = str_append s.printed (frame_text f);
}

unfoldable pub read_frames : List Frame → Stack → Stack
read_frames [] s = s
read_frames (f ∷ fs) s = read_frames fs (add_frame f s)

abbrev unknown_frame : Maps
unknown_frame =
    cons_map (frame_map (record { file = "unknown"; function = "unknown"; line = 0 })) no_maps

-- The last test of `buildErrorStack`.
abbrev known : Stack → Stack
known s = elim s.frames [
  | no_maps ↦ record s {
    frames = unknown_frame;
    top_file = "unknown";
    top_line = 0;
    printed = trim_space s.printed;
  }
  | cons_map m ms ↦ record s { printed = trim_space s.printed }
]

-- `buildErrorStack`, on what `runtime.Callers` finds.
unfoldable pub build_error_stack : List Frame → Stack
unfolding read_frames
build_error_stack [] = record {
  frames = unknown_frame;
  top_file = "unknown";
  top_line = 0;
  printed = "unknown";
}
build_error_stack (f ∷ fs) =
    known (
      read_frames (f ∷ fs) (record { frames = no_maps; top_file = ""; top_line = 0; printed = "" }))

-- An error with those it wraps, outermost first: of each the type's name and the text.
abbrev pub ErrorChain : Type 0
ErrorChain = List (String × String)

chain_maps : ErrorChain → Maps
chain_maps [] = no_maps
chain_maps ((type, message) ∷ chain) =
    cons_map (field "type" (str type) (field "message" (str message) end)) (chain_maps chain)

abbrev pub one_or_all : Maps → Value
one_or_all no_maps = maps no_maps
one_or_all (cons_map m no_maps) = Value.map m
one_or_all (cons_map m (cons_map n ms)) = maps (cons_map m (cons_map n ms))

-- `buildExceptionValue` at an error that is not nil.
unfoldable pub build_exception_value : ErrorChain → Value
unfolding chain_maps
build_exception_value chain = one_or_all (chain_maps chain)
