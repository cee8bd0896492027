-- ===== src/Tests/Ponds.antt =====
-- pond/pond.go on a small pond.
use duckbug_go.Base.{str_eq, true, false, not, ◌&&◌, ◌||◌, some, [], ◌∷◌, ◌≡◌}
use duckbug_go.Text.{contains}
use duckbug_go.Value.{Value, entries, lookup}
use duckbug_go.Pond.{Pond, new, normalized, should_mask_key, sanitize_value, sanitize_map}
use duckbug_go.Pond
use duckbug_go.Pond.Masked.{IsMasked, sanitize_value-IsMasked}
use duckbug_go.Pond.Entries.{lookup-sanitize_map, shown_at, last_entry}
use duckbug_go.Pond.Keys.{should_mask_key-new, all_fields, all_header_names}
use duckbug_go.Pond.Idem.{sanitize_value_idem}
use duckbug_go.Tests.{ascii, login, headers}

abbrev pins : Pond.Config
pins = record {
  sensitive_fields = " PIN " ∷ "" ∷ [];
  sensitive_header_names = "X-Key" ∷ [];
  mask = " # ";
  env_provider = some [];
}

abbrev small : Pond
small = record {
  sensitive_fields = "password" ∷ "token" ∷ [];
  sensitive_header_names = "cookie" ∷ [];
  mask = "***";
  env_provider = [];
}

sanitize_value-IsMasked_example : IsMasked small (sanitize_value small true (Value.map login))
sanitize_value-IsMasked_example =
    sanitize_value-IsMasked small true (Value.map login) (tt, (tt, ((tt, tt), (tt, (tt, tt)))))

lookup-sanitize_map_example :
    lookup "Password" (entries (sanitize_map small false (some login)))
    ≡ shown_at small false "Password" (last_entry "Password" login)
lookup-sanitize_map_example = lookup-sanitize_map small false "Password" login

should_mask_key-new_example : should_mask_key (new [] pins) "pin" true ≡ (
    not (str_eq (normalized "pin") "")
    && (true && contains (normalized "pin") (all_header_names pins)
        || contains (normalized "pin") (all_fields pins)))
should_mask_key-new_example = should_mask_key-new [] pins "pin" true

sanitize_value_idem_example :
    sanitize_value small true (sanitize_value small true (Value.map headers))
    ≡ sanitize_value small true (Value.map headers)
sanitize_value_idem_example = sanitize_value_idem small true (Value.map headers)
