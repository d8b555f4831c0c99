-- ===== src/Tests/FtcSample.antt =====
-- Ftc: a file of one line, loaded, built and asked.
use lnr_high_performance.Base.{
  Option, some, inl, ℕ, ◌≡◌, refl, List, [], ◌∷◌, map, Bytes, done, arith, none,
}
use lnr_high_performance.Csv.Lines.{text_of, at, at_end}
use lnr_high_performance.Csv.{getline, from_csv, load_rows, Loaded}
use lnr_high_performance.Keyed.Answers.{answer}
use lnr_high_performance.Keyed.Spelled.{Spelled, first_of}
use lnr_high_performance.Keyed.{Table, new_table, insert_row}
use lnr_high_performance.PhoneMapping.{phone_list, max_rows}
use lnr_high_performance.Tests.Concrete.{table, all_bare-IsColumn}
use lnr_high_performance.Text.{
  codes, skip_spaces, take_sign, starts_digit, scan_digits, stoll, split_line, field, extract,
  delete_character,
}
use lnr_high_performance.Vendor.{Folly}
use lnr_high_performance.Ftc.{
  Spells, FtcData, columns, key_of, data_of, add_row, read_line, get_ftcs, build, get_ftcs-load,
}

program : Unit {0}
unfolding getline from_csv load_rows new_table insert_row phone_list skip_spaces take_sign
    starts_digit scan_digits stoll split_line field extract delete_character columns key_of data_of
    add_row read_line
program = tt

abbrev F : Folly FtcData
F = table FtcData

abbrev lines : List Bytes
lines = codes "1,2125550123,2020,2021,x,3" ∷ []

abbrev content : Table F
content = record {
  meta = tt;
  dict =
      (
        2125550123,
        record {
          pn = 2125550123;
          first_ftc_on = codes "2020";
          last_ftc_on = codes "2021";
          ftc_count = codes "3";
        },
      )
      ∷ [];
  pn_column = phone_list 2125550123 max_rows ∷ [];
  index = phone_list 2125550123 max_rows ∷ [];
}

abbrev loaded : Loaded (Table F)
loaded = record { content = content; stream = at_end; line = 1; thrown = none }

load : load_rows (read_line F) 10000 9 (at (text_of lines [])) 0 (new_table F) ≡ done loaded
unfolding program
load = refl

abbrev asked : List (ℕ × FtcData)
asked =
    (2125550123, record { pn = 7; first_ftc_on = []; last_ftc_on = []; ftc_count = [] })
    ∷ (42, record { pn = 7; first_ftc_on = []; last_ftc_on = []; ftc_count = [] })
    ∷ []

abbrev texts : List Bytes
texts = codes "1" ∷ codes "2125550123" ∷ codes "2020" ∷ codes "2021" ∷ codes "x" ∷ codes "3" ∷ []

abbrev rows : List (Option (ℕ × FtcData))
rows =
    some (
      2125550123,
      record {
        pn = 2125550123;
        first_ftc_on = codes "2020";
        last_ftc_on = codes "2021";
        ftc_count = codes "3";
      },
    )
    ∷ []

spelled : Spelled Spells lines rows
unfolding program
spelled = (
  (
    codes "1",
    codes "2125550123",
    codes "2020",
    codes "2021",
    codes "x",
    codes "3",
    [],
    (all_bare-IsColumn texts refl, inl (refl, refl)),
    refl,
    refl,
    refl,
  ),
  tt,
)

get_ftcs-load_example :
    get_ftcs F 16 (build F content) asked
    ≡ done (
        map
          (λ (p : ℕ × FtcData).
            answer (λ v. v) (λ old. record old { pn = 0 }) (first_of (p.0) rows) p.1)
          asked)
get_ftcs-load_example =
    get_ftcs-load F 9999 9 16 lines rows loaded spelled (omega arith) (omega arith) (omega arith)
      load refl asked
