-- ===== src/Tests/Messaging.antt =====
-- A batch of a text message that is sent, one whose number no operator has, and a push.
use ussd_polyglot.Prelude.{none, List, [], ◌∷◌, String}
use ussd_polyglot.Prelude.Result.{ok}
use ussd_polyglot.Messaging.Domain.{MessageChannel, sms, push, normal, delivered, Message}
use ussd_polyglot.Messaging.Handler.{Adapter, World, Env}

abbrev message : String → MessageChannel → Message
message recipient channel = record {
  id = 1;
  recipient = recipient;
  body = "Your balance is 5";
  channel = channel;
  priority = normal;
  tenant_id = 5;
  session_id = none;
}

abbrev messages : List Message
messages = message "+263771000001" sms ∷ message "12345" sms ∷ message "" push ∷ []

abbrev eco : Adapter
eco = record {
  provider_name = "ecocash";
  send_sms = λ n to body sender. ok (record { provider_ref = "R"; raw_response = "" });
  get_status = λ n ref. ok delivered;
}

abbrev env : Env
env = record { providers = eco ∷ []; log_fault = λ n. none; id_text = λ id. "id"; now = λ n. n }

abbrev nothing_sent : World
nothing_sent = record { log = []; adapter_calls = 0; log_calls = 0 }
