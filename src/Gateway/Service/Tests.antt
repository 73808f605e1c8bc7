-- ===== src/Gateway/Service/Tests.antt =====
-- The service at a concrete request.
use vexyl_guard.Prelude.{none, ℕ, some, [], pos, ◌≡◌, refl, keep, member}
use vexyl_guard.Python.{str, obj, field, end, get}
use vexyl_guard.Models.{RiskDecision}
use vexyl_guard.Models.Reading.{from_dict, to_dict, int_value}
use vexyl_guard.Runtime.Facts.{stored_int}
use vexyl_guard.Scoring.Run.{plain, index}
use vexyl_guard.Gateway.{decision_policy_exit_code}
use vexyl_guard.Gateway.Handler.{
  parsed, Request, decided, Configuration, partition_space, is_authorized, validate_envelope,
  do_post,
}
use vexyl_guard.Gateway.Service.{
  scoring_end, Service, arrival_of, validated_dict, scored_event, score_event, serve, IsServed,
  serve-IsServed,
}
use vexyl_guard.Runtime.Store.{table, open_db, fits_integer, record_runtime_event}
use vexyl_guard.Runtime.Session.{decision_at, score_and_record}
use vexyl_guard.Integration.Tests.{validation, first_of, fresh, fields}

abbrev config : Configuration
config = record { token = "secret"; max_body_bytes = 1000 }

abbrev request : Request ℕ
request = record {
  authorization = "bearer secret";
  path = "/v1/decisions";
  transfer_encoding = "";
  content_type = "application/json";
  content_length = some (pos 600);
  body = parsed (obj (field "schema" (str "vexyl.ai_event.v1") (field "event" (obj fields) end)));
}

abbrev service : Service ℕ
service = record {
  index = index;
  hours = 24;
  db = table [];
  fresh = fresh;
  fresh_again = fresh;
  loaded_at = 1000;
  instant = record { recorded_at = 1000; deleted_at = 1000; fresh_id = ""; fault = none };
}

abbrev served_decision : RiskDecision
served_decision =
    decision_at plain index
      (arrival_of plain config first_of service (scored_event plain config first_of service fields))
      (table [])

request_served :
    serve plain config first_of service request
    ≡ decided (decision_policy_exit_code served_decision) served_decision
unfolding validation serve validated_dict score_event scoring_end do_post is_authorized
    partition_space validate_envelope get keep member open_db fits_integer record_runtime_event
    score_and_record stored_int from_dict to_dict int_value
request_served = refl

serve-IsServed_example :
    IsServed plain config first_of service request
      (decision_policy_exit_code served_decision)
      served_decision
serve-IsServed_example =
    serve-IsServed plain config first_of service request (decision_policy_exit_code served_decision)
      served_decision request_served
