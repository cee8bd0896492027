-- ===== src/Tests/Ids.antt =====
-- The id that the clock gives.
use duckbug_go.Base.{true, none, ◌≡◌}
use duckbug_go.Core.Ids.{new_event_id}
use duckbug_go.Core.Ids.Shape.{has_shape, uuid4, new_event_id-uuid4}

new_event_id-uuid4_example : has_shape uuid4 (new_event_id none 1700000000000000000) ≡ true
new_event_id-uuid4_example = new_event_id-uuid4 none 1700000000000000000
