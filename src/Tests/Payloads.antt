-- ===== src/Tests/Payloads.antt =====
-- The provider's preparation of one payload.
use duckbug_go.Base.{true, none, some}
use duckbug_go.Value.{str, Fields, end, field}
use duckbug_go.Provider.Payload.{BeforeSendFunc}
use duckbug_go.Core.Ids.{new_event_id}

-- A hook that takes the id away.
abbrev anonymous : BeforeSendFunc
anonymous t payload = (some (field "message" (str "hi") end), true)

abbrev renamed : Fields
renamed = field "message" (str "hi") (field "eventId" (str (new_event_id none 0)) end)
