-- ===== src/Tests/Datagrams.antt =====
-- SIP datagrams through one handler: two calls of one peer, which has a token for the first.
use lnr_high_performance.AccessLog.Lines.{lines}
use lnr_high_performance.Acl.{Rule, expired, find_rule, set_rule, is_call_allowed}
use lnr_high_performance.Base.{
  ℕ, ◌≡◌, refl, true, false, none, some, List, [], ◌∷◌, ◌++◌, Bytes, done, arith,
}
use lnr_high_performance.PhoneMapping.Builder.{new_data-Holds}
use lnr_high_performance.PhoneMapping.{new_data, build}
use lnr_high_performance.Sip.Logging.{
  Datagram, World, Session, Event, datagram, new_acl, new_mappings, behind, Answered, AllAnswered,
  on_events, replies, running, on_events-running,
}
use lnr_high_performance.Sip.Redirect.{answer, finished, on_data_available-answer}
use lnr_high_performance.Sip.{invite, Message, Parser, parse_message, reply, on_data_available}
use lnr_high_performance.Tests.Calls.{acls}
use lnr_high_performance.Tests.Concrete.{table, plain}
use lnr_high_performance.Tests.Documents.{show}
use lnr_high_performance.Text.{codes}
use lnr_high_performance.Vendor.{Folly}

abbrev F : Folly ℕ
F = table ℕ

abbrev call : Message
call = record {
  method = invite;
  user = codes "+12125550123";
  host = codes "10.0.0.1";
  port = codes "5060";
  via1 = none;
  from = none;
  to = none;
  callid = some (codes "Call-ID", codes "1");
  cseq = none;
}

abbrev parser : Parser
parser = record { parse_msg = λ s. some call; is_request = λ m. true; parse_uri = λ m. some m }

abbrev date : ℕ → Bytes
date t = codes "13/Sep/2020:12:26:40 +0000"

abbrev line : Message → Bytes × Bytes
line m = (codes "INVITE", codes "sip:+12125550123@10.0.0.1")

abbrev incoming : Datagram acls F
incoming = record {
  peer = codes "10.0.0.2:5060";
  address = 7;
  bytes = codes "INVITE";
  truncated = false;
  time = 1600000000;
  now = 20;
}

abbrev one_call : ℕ → Rule acls
one_call tokens = record { created = 1; expire = some 50; call_budget = tokens }

abbrev before : World acls F
before = record { acl = none; loaded = none }

abbrev serving : ℕ → World acls F
serving tokens = record {
  acl = some ((7, one_call tokens) ∷ []);
  loaded = some (build F (new_data F), build F (new_data F));
}

abbrev fresh : Session acls F
fresh = record { message = []; log = record { writer = some []; flushed = [] }; world = before }

abbrev trimmed : Bytes → Bytes
trimmed s = s

abbrev events : List (Event acls F)
events =
    datagram incoming
    ∷ new_acl (some ((7, one_call 1) ∷ []))
    ∷ new_mappings (some (build F (new_data F), build F (new_data F)))
    ∷ datagram incoming
    ∷ datagram incoming
    ∷ []

abbrev IsAnswered : World acls F → Type 0
IsAnswered = Answered acls date show trimmed plain F 16 true parser line incoming

unavailable : IsAnswered before
unfolding on_data_available parse_message
unavailable = record {
  msg = call;
  status = 503;
  sent =
      reply trimmed show call 503 (codes "Service Unavailable")
      ++ codes "Content-Length: 0\r\n\r\n";
  parsed = refl;
  answered = refl;
}

granted : IsAnswered (serving 1)
unfolding parse_message is_call_allowed expired find_rule set_rule
granted = record {
  msg = call;
  status =
      (finished trimmed show plain F 16 true call
        (answer trimmed show plain F 16 true invite 200 (some ([], [])) call)).0;
  sent =
      (finished trimmed show plain F 16 true call
        (answer trimmed show plain F 16 true invite 200 (some ([], [])) call)).1;
  parsed = refl;
  answered =
      on_data_available-answer trimmed show plain F 16 true (some ([], []))
        (some (build F (new_data F), build F (new_data F))) parser 200 (codes "INVITE") false
        (omega arith) (new_data F, new_data F, new_data-Holds F, new_data-Holds F, refl, refl, tt);
}

refused : IsAnswered (serving 0)
unfolding parse_message is_call_allowed expired find_rule set_rule
refused = record {
  msg = call;
  status =
      (finished trimmed show plain F 16 true call
        (answer trimmed show plain F 16 true invite 429 (some ([], [])) call)).0;
  sent =
      (finished trimmed show plain F 16 true call
        (answer trimmed show plain F 16 true invite 429 (some ([], [])) call)).1;
  parsed = refl;
  answered =
      on_data_available-answer trimmed show plain F 16 true (some ([], []))
        (some (build F (new_data F), build F (new_data F))) parser 429 (codes "INVITE") false
        (omega arith) (new_data F, new_data F, new_data-Holds F, new_data-Holds F, refl, refl, tt);
}

answers : AllAnswered acls date show trimmed plain F 16 true parser line events before
unfolding behind is_call_allowed expired find_rule set_rule unavailable granted refused
answers = (unavailable, (granted, (refused, tt)))

on_events-running_example :
    (s : Session acls F) × (on_events acls date show trimmed plain F 16 true parser line events
        fresh
      ≡ done (replies acls date show trimmed plain F 16 true parser line events before answers, s))
    × (lines s.log
        ≡ lines fresh.log
          ++ running acls date show trimmed plain F 16 true parser line [] events before answers)
on_events-running_example =
    on_events-running acls date show trimmed plain F 16 true parser line events fresh answers refl
