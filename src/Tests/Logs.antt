-- ===== src/Tests/Logs.antt =====
-- Records of slog and entries of zap, and clients from options.
use duckbug_go.Base.{ℕ, true, List, [], ◌∷◌, ◌≡◌, Option, none, some}
use duckbug_go.Base.Int.{pos}
use duckbug_go.Value.{str, end, field, insert}
use duckbug_go.Value
use duckbug_go.Integrations.Slog.Attrs.{any_value, string_value, group, attr, no_attrs}
use duckbug_go.Integrations.Slog.{
  Record, Handler, Handled, Next, forward, with_attrs, with_group, handle,
}
use duckbug_go.Integrations.Slog.Total.{handle_total}
use duckbug_go.Integrations.Slog.Groups.{calls_of, with_attrs-with_group}
use duckbug_go.Integrations.Zap.{Core, Entry}
use duckbug_go.Preset.{PresetOption, with_environment, with_release}
use duckbug_go.Tests.{ascii, plain_reflection, login}
use duckbug_go.Tests.Clients.{client, calm}

-- The next handler counts what it is derived by.
instance abbrev counter : Next ℕ
counter = record { enabled = λ n level. true; attach = λ attrs n. n; open_group = λ name n. n }

abbrev logger : Handler ℕ
logger = record {
  duck = some client;
  next = some 0;
  attrs = ("user", any_value (Value.map login)) ∷ [];
  groups = "http" ∷ "" ∷ [];
  min_level = pos 4;
}

abbrev refused : Record
refused = record {
  level = pos 8;
  time = none;
  message = "refused";
  attrs =
      ("user", group (attr "token" (string_value "quack") no_attrs))
      ∷ ("", string_value "dropped")
      ∷ [];
}

handle_total_example :
    (x : Handled ℕ) × (handle calm refused logger ≡ some x)
    × (x.forwarded ≡ forward logger.next refused)
handle_total_example =
    handle_total calm refused logger ((tt, (tt, ((tt, tt), (tt, (tt, tt))))), tt)
      ((tt, tt), (tt, tt))

with_attrs-with_group_example :
    calls_of (handle calm refused (with_attrs refused.attrs (with_group "db" logger)))
    ≡ calls_of (handle calm refused (with_group "db" (with_attrs refused.attrs logger)))
with_attrs-with_group_example = with_attrs-with_group calm refused "db" refused.attrs logger

abbrev core : Core ℕ
core = record {
  duck = some client;
  next = none;
  fields = (λ m. insert "password" (str "quack") m) ∷ [];
  min_level = pos 1;
}

abbrev entry : Entry
entry = record {
  level = pos 2;
  time = some (pos 7);
  logger_name = "shop";
  message = "refused";
  caller = some "pay.go:3";
  stack = "";
}

abbrev options : List (Option PresetOption)
options = some (with_environment " prod ") ∷ none ∷ some (with_release "v1") ∷ []
