-- ===== src/Core/Duck/Carried.antt =====
-- core/duck.go: what error and log events carry.
use duckbug_go.Base.{String, str_eq, false, Option, none, some, List, [], ◌∷◌, ◌≡◌, refl, ◌∙◌}
use duckbug_go.Base.Int.{ℤ}
use duckbug_go.Text.{Unicode, trim_space}
use duckbug_go.Value.{Value, str, int, bool, Fields, lookup, insert}
use duckbug_go.Value.Entries.{lookup-insert_self}
use duckbug_go.Pond.{Pond}
use duckbug_go.Core.Level.{LevelInput, normalize_level}
use duckbug_go.Core.Util.{Reflection}
use duckbug_go.Core.Scope.{clone_breadcrumbs}
use duckbug_go.Core.Duck.{
  Duck, Circumstances, Capture, event_time, put_details, build_base_payload, build_common_payload,
  error_payload, log_payload,
}
use duckbug_go.Core.Duck.Entries.{
  found_breadcrumbs, Avoid, skip-insert, skip-put_text, id-base_payload, breadcrumbs-base_payload,
}

-- What the payload of an event says of the event, whatever its kind.
abbrev pub Carries : ⦃u : Unicode⦄ → Circumstances → Option ℤ → String → Duck → Fields → Type 0
Carries c at message d payload =
    (lookup "eventId" payload ≡ some (str c.event_id))
    × (lookup "time" payload ≡ some (int (event_time c at)))
    × (lookup "message" payload ≡ some (str message))
    × (lookup "breadcrumbs" payload ≡ found_breadcrumbs (clone_breadcrumbs d.scope.breadcrumbs))

abbrev error_keys : List String
error_keys =
    "context" ∷ "mechanism" ∷ "handled" ∷ "line" ∷ "file" ∷ "stacktraceAsString" ∷ "stacktrace"
    ∷ "exception" ∷ []

module _ ⦃u : Unicode⦄ ⦃r : Reflection⦄ where
  skip-put_details :
      (k : String) (fs : Fields) (p : Pond) (details : Option Value)
      → str_eq "context" k ≡ false
      → lookup k (put_details p details fs) ≡ lookup k fs
  skip-put_details k fs p none e = refl
  skip-put_details k fs p (some v) e = skip-insert k "context" fs e _

  skip-time :
      (k : String) (c : Circumstances) (time : ℤ) (d : Duck)
      → str_eq "time" k ≡ false
      → lookup k (build_common_payload c time d) ≡ lookup k (build_base_payload c d)
  unfolding build_common_payload
  skip-time k c time d e = skip-insert k "time" (build_base_payload c d) e (int time)

  time-common_payload :
      (c : Circumstances) (time : ℤ) (d : Duck)
      → lookup "time" (build_common_payload c time d) ≡ some (int time)
  unfolding build_common_payload
  time-common_payload c time d = lookup-insert_self "time" (int time) (build_base_payload c d)

  -- The payload of a log event carries the minted id, the time that is given or else the clock's, the message
  -- as it is, the normalized level, and the breadcrumbs of the scope in their order and unmasked, whatever the
  -- scope, the request and the details hold.
  pub log_payload-Carries :
      (c : Circumstances) (at : Option ℤ) (severity : LevelInput) (message : String)
      (details : Option Value) (d : Duck)
      → Carries c at message d (log_payload c at severity message details d)
        × (lookup "level" (log_payload c at severity message details d)
            ≡ some (str (normalize_level severity)))
  unfolding log_payload
  log_payload-Carries c at severity message details d = (
    (
      skip "eventId" refl refl refl ∙ skip-time "eventId" c time d refl ∙ id-base_payload c d,
      skip "time" refl refl refl ∙ time-common_payload c time d,
      skip-put_details "message" _ d.pond details refl ∙ lookup-insert_self "message" _ _,
      skip "breadcrumbs" refl refl refl
          ∙ skip-time "breadcrumbs" c time d refl
          ∙ breadcrumbs-base_payload c d,
    ),
    skip-put_details "level" _ d.pond details refl
        ∙ skip-insert "level" "message" _ refl _
        ∙ lookup-insert_self "level" _ _,
  )
    where
      time : ℤ
      time = event_time c at

      skip :
          (k : String)
          → str_eq "context" k ≡ false
          → str_eq "message" k ≡ false
          → str_eq "level" k ≡ false
          → lookup k (log_payload c at severity message details d)
            ≡ lookup k (build_common_payload c (event_time c at) d)
      skip k e f g =
          skip-put_details k _ d.pond details e
          ∙ skip-insert k "message" _ f _
          ∙ skip-insert k "level" _ g _

  -- The payload of an error event carries the minted id, the time that is given or else the clock's, the text of
  -- the error as it is, whether it was handled, and the breadcrumbs of the scope in their order and unmasked,
  -- whatever the scope, the request and the details hold.
  pub error_payload-Carries :
      (c : Circumstances) (at : Option ℤ) (e : Capture) (details : Option Value) (d : Duck)
      → Carries c at e.message d (error_payload c at e details d)
        × (lookup "handled" (error_payload c at e details d) ≡ some (bool e.handled))
  unfolding error_payload
  error_payload-Carries c at e details d = (
    (
      skip "eventId" (refl, (refl, (refl, (refl, (refl, (refl, (refl, (refl, tt)))))))) refl
          ∙ skip-time "eventId" c (event_time c at) d refl
          ∙ id-base_payload c d,
      skip "time" (refl, (refl, (refl, (refl, (refl, (refl, (refl, (refl, tt)))))))) refl
          ∙ time-common_payload c (event_time c at) d,
      outer "message" (refl, (refl, (refl, (refl, (refl, (refl, (refl, (refl, tt))))))))
          ∙ lookup-insert_self "message" _ _,
      skip "breadcrumbs" (refl, (refl, (refl, (refl, (refl, (refl, (refl, (refl, tt)))))))) refl
          ∙ skip-time "breadcrumbs" c (event_time c at) d refl
          ∙ breadcrumbs-base_payload c d,
    ),
    skip-put_details "handled" _ d.pond details refl
        ∙ skip-put_text "handled" "mechanism" _ refl (trim_space e.mechanism)
        ∙ lookup-insert_self "handled" _ _,
  )
    where
      outer :
          (k : String)
          → Avoid k error_keys
          → lookup k (error_payload c at e details d)
            ≡ lookup k
                (insert "message" (str e.message) (build_common_payload c (event_time c at) d))
      outer k (a, (b, (x, (y, (z, (s, (t, (w, _)))))))) =
          skip-put_details k _ d.pond details a
          ∙ skip-put_text k "mechanism" _ b (trim_space e.mechanism)
          ∙ skip-insert k "handled" _ x _
          ∙ skip-insert k "line" _ y _
          ∙ skip-insert k "file" _ z _
          ∙ skip-insert k "stacktraceAsString" _ s _
          ∙ skip-insert k "stacktrace" _ t _
          ∙ skip-insert k "exception" _ w _

      skip :
          (k : String)
          → Avoid k error_keys
          → str_eq "message" k ≡ false
          → lookup k (error_payload c at e details d)
            ≡ lookup k (build_common_payload c (event_time c at) d)
      skip k a m = outer k a ∙ skip-insert k "message" _ m _
