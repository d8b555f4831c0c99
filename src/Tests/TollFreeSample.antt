-- ===== src/Tests/TollFreeSample.antt =====
-- TollFree: a file of one line, loaded, built and asked.
use lnr_high_performance.Base.{
  Option, some, inl, ℕ, ◌≡◌, refl, List, [], ◌∷◌, map, Bytes, done, arith, none,
}
use lnr_high_performance.Csv.Lines.{text_of, at, at_end}
use lnr_high_performance.Csv.{getline, from_csv, load_rows, Loaded}
use lnr_high_performance.Keyed.Answers.{answer}
use lnr_high_performance.Keyed.Spelled.{Spelled, first_of}
use lnr_high_performance.Keyed.{Table, new_table, insert_row}
use lnr_high_performance.PhoneMapping.{phone_list, max_rows}
use lnr_high_performance.Tests.Concrete.{table, all_bare-IsColumn}
use lnr_high_performance.Text.{
  codes, skip_spaces, take_sign, starts_digit, scan_digits, stoll, split_line, field, extract,
  delete_character,
}
use lnr_high_performance.Vendor.{Folly}
use lnr_high_performance.TollFree.{
  Spells, columns, key_of, add_row, read_line, get_toll_frees, build, get_toll_frees-load,
}

program : Unit {0}
unfolding getline from_csv load_rows new_table insert_row phone_list skip_spaces take_sign
    starts_digit scan_digits stoll split_line field extract delete_character columns key_of add_row
    read_line
program = tt

abbrev F : Folly ℕ
F = table ℕ

abbrev lines : List Bytes
lines = codes "8005550123,x,y" ∷ []

abbrev content : Table F
content = record {
  meta = tt;
  dict = (8005550123, 1) ∷ [];
  pn_column = phone_list 8005550123 max_rows ∷ [];
  index = phone_list 1 max_rows ∷ [];
}

abbrev loaded : Loaded (Table F)
loaded = record { content = content; stream = at_end; line = 1; thrown = none }

load : load_rows (read_line F) 10000 9 (at (text_of lines [])) 0 (new_table F) ≡ done loaded
unfolding program
load = refl

abbrev asked : List (ℕ × ℕ)
asked = (8005550123, 7) ∷ (42, 7) ∷ []

abbrev texts : List Bytes
texts = codes "8005550123" ∷ codes "x" ∷ codes "y" ∷ []

abbrev rows : List (Option (ℕ × ℕ))
rows = some (8005550123, 1) ∷ []

spelled : Spelled Spells lines rows
unfolding program
spelled = (
  (
    codes "8005550123",
    codes "x",
    codes "y",
    (all_bare-IsColumn texts refl, inl (refl, refl)),
    refl,
    refl,
    refl,
  ),
  tt,
)

get_toll_frees-load_example :
    get_toll_frees F 16 (build F content) asked
    ≡ done (map (λ (p : ℕ × ℕ). answer (λ v. 1) (λ old. 0) (first_of (p.0) rows) p.1) asked)
get_toll_frees-load_example =
    get_toll_frees-load F 9999 9 16 lines rows loaded spelled (omega arith) (omega arith)
      (omega arith) load refl asked
