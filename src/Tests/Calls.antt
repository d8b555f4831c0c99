-- ===== src/Tests/Calls.antt =====
-- A SIP request and the ACL at small inputs.
use lnr_high_performance.Acl.Rules.{read_lines, from_csv-read_lines}
use lnr_high_performance.Acl.Verdict.{verdict, charged, rules_of, is_call_allowed-verdict}
use lnr_high_performance.Acl.{Acls, Rule, Reader, find_rule, is_call_allowed, from_csv}
use lnr_high_performance.Base.{
  ℕ, ◌-◌, ◌≡◌, true, none, some, [], ◌∷◌, ◌==◌, ==_iff, leb, if◌then◌else◌, Bytes, done, arith,
}
use lnr_high_performance.Csv.Lines.{text_of, at}
use lnr_high_performance.PhoneMapping.Rows.{find_row, push_row}
use lnr_high_performance.PhoneMapping.{Data, phone_list, max_rows, new_data, add_row}
use lnr_high_performance.Sip.{invite, Message, Parser}
use lnr_high_performance.Tests.Concrete.{table, plain}
use lnr_high_performance.Text.{codes}
use lnr_high_performance.Vendor.{Folly}

program : Unit {0}
unfolding phone_list new_data add_row find_row push_row
program = tt

abbrev F : Folly ℕ
F = table ℕ

abbrev us : Data F
us = record {
  meta = tt;
  dict = (2125550123, 2125559999) ∷ [];
  pn_column = phone_list 2125550123 max_rows ∷ [];
  rn_index = phone_list 2125559999 max_rows ∷ [];
}

abbrev trimmed : Bytes → Bytes
trimmed s = s

-- a stand-in for the decimal text of a number
abbrev show : ℕ → Bytes
show n = n ∷ []

abbrev call : Message
call = record {
  method = invite;
  user = codes "+12125550123";
  host = codes "10.0.0.1";
  port = codes "5060";
  via1 = some (codes "Via", codes "SIP/2.0/UDP 10.0.0.1");
  from = none;
  to = none;
  callid = some (codes "Call-ID", codes "1");
  cseq = none;
}

abbrev parser : Parser
parser = record { parse_msg = λ s. some call; is_request = λ m. true; parse_uri = λ m. some m }

-- addresses are numbers, and a bucket is a count of tokens
abbrev pub acls : Acls
acls = record {
  Address = ℕ;
  same = ◌==◌;
  Bucket = ℕ;
  full = 9;
  consume = λ now n. (leb 1 n, n - 1);
  Rate = ℕ;
  to_rate = plain.try_to_uint64;
  reset = λ cps n. cps;
  to_address = plain.try_to_uint64;
  read_time = plain.try_to_uint64;
}

abbrev one_call : Rule acls
one_call = record { created = 1; expire = some 50; call_budget = 1 }

is_call_allowed-verdict_example :
    ((is_call_allowed acls 20 7 (some ((7, one_call) ∷ []))).0
      ≡ verdict acls ==_iff 20
          (find_rule acls 7 (rules_of acls ==_iff (some ((7, one_call) ∷ [])))))
    × ((q : ℕ)
        → find_rule acls q
            (rules_of acls ==_iff (is_call_allowed acls 20 7 (some ((7, one_call) ∷ []))).1)
          ≡ (if 7 == q
              then charged acls ==_iff 20
                  (find_rule acls 7 (rules_of acls ==_iff (some ((7, one_call) ∷ []))))
              else find_rule acls q (rules_of acls ==_iff (some ((7, one_call) ∷ [])))))
is_call_allowed-verdict_example =
    is_call_allowed-verdict acls ==_iff 20 7 (some ((7, one_call) ∷ []))

abbrev pub start : Reader acls
start = record { rule = record { created = 0; expire = none; call_budget = 9 }; origin = [] }

from_csv-read_lines_example :
    from_csv acls plain 5 (at (text_of (codes "7,1,50,3" ∷ codes "8,2,," ∷ []) [])) 0 start
    ≡ done (read_lines acls plain (codes "7,1,50,3" ∷ codes "8,2,," ∷ []) 0 start)
from_csv-read_lines_example =
    from_csv-read_lines acls plain (codes "7,1,50,3" ∷ codes "8,2,," ∷ []) 5 0 start (omega arith)
      (omega arith)
