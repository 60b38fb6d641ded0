-- ===== src/Redaction/Tests.antt =====
-- Examples for the redaction of a small object.
use attow_nexus.Prelude.{◌≡◌, refl, true, [], some}
use attow_nexus.Json.{Value, Fields, string, object, end, field, get, has_key}
use attow_nexus.Tests.Data.{platform}
use attow_nexus.Redaction.{
  marker, secret_key_name, lower, starts, has_infix, redact_json, redact_json_object, redact_text,
  redact_with,
}
use attow_nexus.Redaction.Laws.{redact_json_object-get}

abbrev login : Fields
login = field "user" (string "ada") (field "Db_Password" (string "hunter2") end)

redact_json_object-get_example :
    get "Db_Password" (redact_json_object platform "$" login).0 ≡ some (string marker)
redact_json_object-get_example =
    redact_json_object-get platform "$" "Db_Password" login secret present
  where
    secret : secret_key_name "Db_Password" ≡ true
    secret = unfold secret_key_name in refl

    present : has_key "Db_Password" login ≡ true
    present = unfold has_key in refl

abbrev plan : Value
plan = object (field "plan" (string "sort the list") end)

plan_clean : (redact_json platform "$" plan).1 ≡ []
unfolding redact_json redact_json_object redact_text redact_with secret_key_name lower starts
    has_infix
plan_clean = refl
