-- ===== src/Tests/Web.antt =====
-- The HTTP handlers at small requests.
use lnr_high_performance.Base.{
  ℕ, ◌-◌, ◌/◌, ◌^◌, ◌<◌, ◌≡◌, ◌↔◌, ◌&&◌, refl, Bool, true, List, [], ◌∷◌, ◌++◌, Bytes, done, arith,
  none, some, leb, ltb, length,
}
use lnr_high_performance.PhoneMapping.Builder.{Holds, new_data-Holds, add_row-Refines}
use lnr_high_performance.PhoneMapping.Rows.{find_row, push_row}
use lnr_high_performance.PhoneMapping.{Data, phone_list, max_rows, new_data, add_row, build}
use lnr_high_performance.Reverse.Body.{range_texts, body_of, on_request-body}
use lnr_high_performance.Reverse.Prefix.{prefix_range-first_digits}
use lnr_high_performance.Reverse.{Event, prefix_range, on_query_string, on_request}
use lnr_high_performance.Target.Replies.{inputs_of, response, handle-response}
use lnr_high_performance.Target.{
  post, Header, content_length, accept, Handler, new_handler, sanitize_header, sanitize, handle,
}
use lnr_high_performance.Tests.Concrete.{table, plain}
use lnr_high_performance.Text.{codes}
use lnr_high_performance.Vendor.{Folly}

program : Unit {0}
unfolding phone_list new_data add_row find_row push_row sanitize_header sanitize new_handler
program = tt

abbrev pub F : Folly ℕ
F = table ℕ

abbrev pub us : Data F
us = record {
  meta = tt;
  dict = (2125550123, 2125559999) ∷ [];
  pn_column = phone_list 2125550123 max_rows ∷ [];
  rn_index = phone_list 2125559999 max_rows ∷ [];
}

pub us-Holds : Holds F ((2125550123, 2125559999) ∷ []) us
unfolding program
us-Holds = add_row-Refines F (new_data-Holds F) 2125550123 2125559999

-- a stand-in for the decimal text of a number
abbrev pub show : ℕ → Bytes
show n = n ∷ []

abbrev params : List (Bytes × Bytes)
params = (codes "prefix[]", codes "212555") ∷ (codes "x", codes "1") ∷ []

on_request-body_example :
    (events : List Event) × (on_request F 16 show true plain 9 true
        (build F us)
        (build F (new_data F))
        params
      ≡ done events)
    × (body_of events
        ≡ (codes "[\n"
            ++ range_texts show true
                ((2125550123, 2125559999) ∷ [])
                []
                (on_query_string plain params []))
          ++ codes "]\n")
on_request-body_example =
    on_request-body F 16 show true (omega arith) us-Holds (new_data-Holds F) (omega arith) tt 9
      (omega arith) (omega arith) plain params

prefix_range-first_digits_example :
    (from : ℕ) × (to : ℕ) × (prefix_range plain (codes "212555") ≡ some (from, to))
    × (from < 2 ^ 34)
    × (to < 2 ^ 34)
    × ((rn : ℕ)
        → ((leb from rn && ltb rn to) ≡ true) ↔ (rn / 10 ^ (10 - length (codes "212555")) ≡ 212555))
prefix_range-first_digits_example =
    prefix_range-first_digits plain (codes "212555") 212555 refl (omega arith)

abbrev is_json : Bytes → Bool
is_json s = true

abbrev pieces : Bytes → List (Bytes × Bytes)
pieces s = (codes "phone[]", s) ∷ []

abbrev headers : List Header
headers = content_length (codes "10") ∷ accept (codes "application/json") ∷ []

abbrev opened : Handler
opened = record { need_body = true; json = true; body = none; pn = [] }

headers_read : sanitize plain is_json pieces 100 headers new_handler ≡ done opened
unfolding program
headers_read = refl

handle-response_example :
    handle plain is_json pieces 100 post headers [] (inputs_of (codes "212555" ∷ codes "0123" ∷ []))
    ≡ done
        (response plain is_json pieces 100 post opened [] (codes "212555" ∷ codes "0123" ∷ []) ∷ [])
handle-response_example =
    handle-response plain is_json pieces 100 post headers [] (codes "212555" ∷ codes "0123" ∷ [])
      opened headers_read

abbrev pub asked : List ℕ
asked = 2125550123 ∷ 3125550123 ∷ []
