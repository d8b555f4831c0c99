-- ===== src/Tests/Pages.antt =====
-- An answer to a query of two numbers.
use lnr_high_performance.Base.{◌≡◌, refl, true, some, [], ◌∷◌, ◌++◌, map, done, arith}
use lnr_high_performance.Control.{Globals}
use lnr_high_performance.Keyed.{Table}
use lnr_high_performance.PhoneMapping.Builder.{new_data-Holds}
use lnr_high_performance.PhoneMapping.{phone_list, max_rows, new_data, build}
use lnr_high_performance.Reverse.Body.{concat}
use lnr_high_performance.Reverse.{events_of}
use lnr_high_performance.Target.Answer.{facts_of, on_query_complete-records}
use lnr_high_performance.Target.Page.{on_query_complete}
use lnr_high_performance.Target.Record.{record_text}
use lnr_high_performance.Tests.Commands.{maps, globals}
use lnr_high_performance.Tests.Web.{F, us, us-Holds, show, asked}
use lnr_high_performance.Text.{codes}

abbrev spam : Table F
spam = record {
  meta = tt;
  dict = (3125550123, 1) ∷ [];
  pn_column = phone_list 3125550123 max_rows ∷ [];
  index = phone_list 3125550123 max_rows ∷ [];
}

abbrev loaded : Globals maps
loaded = record globals {
  us = some (build F us);
  ca = some (build F (new_data F));
  dnc = some spam;
}

on_query_complete-records_example :
    on_query_complete maps (λ s. 16) show loaded true asked
    ≡ done (
        events_of true [] (
          codes "[\n"
          ++ (concat (
                map
                  (λ pn.
                    record_text show true
                      (facts_of maps loaded ((2125550123, 2125559999) ∷ []) [] pn))
                  asked)
              ++ codes "]\n")))
on_query_complete-records_example =
    on_query_complete-records maps loaded ((2125550123, 2125559999) ∷ []) [] (λ s. 16)
      (λ s. omega arith) us-Holds (new_data-Holds F) show true asked refl refl
