-- ===== src/Tests/YoumailSample.antt =====
-- Youmail: a file of one line, loaded, built and asked.
use lnr_high_performance.Base.{
  Option, some, inr, ℕ, ◌≡◌, refl, List, [], ◌∷◌, map, Bytes, done, arith, none,
}
use lnr_high_performance.Csv.Lines.{text_of, at, at_end}
use lnr_high_performance.Csv.{getline, from_csv, load_rows, Loaded}
use lnr_high_performance.Keyed.Answers.{answer}
use lnr_high_performance.Keyed.Spelled.{Spelled, first_of}
use lnr_high_performance.Keyed.{Table, new_table, insert_row}
use lnr_high_performance.PhoneMapping.{phone_list, max_rows}
use lnr_high_performance.Tests.Concrete.{table, all_bare-IsColumn}
use lnr_high_performance.Text.{
  codes, skip_spaces, take_sign, starts_digit, scan_digits, stoll, split_line, field, extract,
  delete_character,
}
use lnr_high_performance.Vendor.{Folly}
use lnr_high_performance.Youmail.{
  Spells, YoumailData, columns, key_of, data_of, add_row, read_line, get_youmails, build,
  get_youmails-load, erase_country,
}

program : Unit {0}
unfolding getline from_csv load_rows new_table insert_row phone_list skip_spaces take_sign
    starts_digit scan_digits stoll split_line field extract delete_character columns key_of data_of
    add_row read_line erase_country
program = tt

abbrev F : Folly YoumailData
F = table YoumailData

abbrev lines : List Bytes
lines = codes "+12125550123,LOW,0.1,0.2," ∷ []

abbrev content : Table F
content = record {
  meta = tt;
  dict =
      (
        2125550123,
        record {
          pn = 2125550123;
          sapmscore = codes "LOW";
          fraudprobability = codes "0.1";
          unlawful = codes "0.2";
          tcpafraud = codes "";
        },
      )
      ∷ [];
  pn_column = phone_list 2125550123 max_rows ∷ [];
  index = phone_list 2125550123 max_rows ∷ [];
}

abbrev loaded : Loaded (Table F)
loaded = record { content = content; stream = at_end; line = 1; thrown = none }

load : load_rows (read_line F) 10000 9 (at (text_of lines [])) 0 (new_table F) ≡ done loaded
unfolding program
load = refl

abbrev asked : List (ℕ × YoumailData)
asked =
    (
      2125550123,
      record { pn = 7; sapmscore = []; fraudprobability = []; unlawful = []; tcpafraud = [] },
    )
    ∷ (42, record { pn = 7; sapmscore = []; fraudprobability = []; unlawful = []; tcpafraud = [] })
    ∷ []

abbrev texts : List Bytes
texts = (b'+' ∷ b'1' ∷ codes "2125550123") ∷ codes "LOW" ∷ codes "0.1" ∷ codes "0.2" ∷ []

abbrev rows : List (Option (ℕ × YoumailData))
rows =
    some (
      2125550123,
      record {
        pn = 2125550123;
        sapmscore = codes "LOW";
        fraudprobability = codes "0.1";
        unlawful = codes "0.2";
        tcpafraud = [];
      },
    )
    ∷ []

spelled : Spelled Spells lines rows
unfolding program
spelled = (
  (
    codes "2125550123",
    codes "LOW",
    codes "0.1",
    codes "0.2",
    [],
    inr (all_bare-IsColumn texts refl, refl, refl),
    refl,
    refl,
  ),
  tt,
)

get_youmails-load_example :
    get_youmails F 16 (build F content) asked
    ≡ done (
        map
          (λ (p : ℕ × YoumailData).
            answer (λ v. v) (λ old. record old { pn = 0 }) (first_of (p.0) rows) p.1)
          asked)
get_youmails-load_example =
    get_youmails-load F 9999 9 16 lines rows loaded spelled (omega arith) (omega arith)
      (omega arith) load refl asked
