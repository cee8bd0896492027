-- ===== src/Tests/Lines.antt =====
-- Lines of zerolog.
use duckbug_go.Base.{String, Option, [], ◌∷◌, ◌≤◌, none, some, ◌≡◌, refl, arith}
use duckbug_go.Base.Int.{pos, negsuc}
use duckbug_go.Value.{str, Fields, end, field, lookup}
use duckbug_go.Core.Level.{severity}
use duckbug_go.Integrations.Zerolog.{Surroundings, normalize_zerolog_level}
use duckbug_go.Integrations.Zerolog.Levels.{write-unleveled, severity-normalize_zerolog_level}
use duckbug_go.Integrations.Zerolog.Writer.{
  Sink, Writer, new_writer, with_min_level, write, write_level,
}
use duckbug_go.Text.{trim_space}
use duckbug_go.Tests.{ascii, plain_reflection}
use duckbug_go.Tests.Clients.{client, calm}

abbrev defaults : Surroundings
defaults = record {
  message_field = "message";
  level_field = "level";
  time_field = "time";
  parse_time = λ s. none;
  to_int64 = λ x. pos x;
}

-- The line on fire, whatever the text.
abbrev on_fire : String → Option Fields
on_fire raw = some (field "message" (str "the pond is on fire") end)

abbrev full_disk : Sink
full_disk = record { write = λ s. (0, some "no space left"); write_level = none }

abbrev lines : Writer
lines = new_writer (some client) (some full_disk) (none ∷ some (with_min_level (pos 2)) ∷ [])

write-unleveled_example : (write defaults on_fire calm "{}" lines).calls ≡ []
unfolding lookup trim_space new_writer with_min_level
write-unleveled_example =
    write-unleveled defaults on_fire calm "{}" (field "message" (str "the pond is on fire") end)
      lines 2 refl refl refl refl (omega arith)

severity-normalize_zerolog_level_example :
    severity (normalize_zerolog_level (negsuc 0)) ≤ severity (normalize_zerolog_level (pos 3))
severity-normalize_zerolog_level_example =
    severity-normalize_zerolog_level (negsuc 0) (pos 3) (omega arith) (omega arith) (omega arith)
