-- ===== src/Tests/DncSample.antt =====
-- Dnc: a file of one line, loaded, built and asked.
use lnr_high_performance.Base.{
  Option, some, inl, inr, Bool-cases, sym, ◌∙◌, ◌==◌, ==_iff, ℕ, ◌≡◌, refl, List, [], ◌∷◌, map,
  Bytes, done, arith, none,
}
use lnr_high_performance.Csv.Lines.{text_of, at, at_end}
use lnr_high_performance.Csv.{getline, from_csv, load_rows, Loaded}
use lnr_high_performance.Keyed.Answers.{answer}
use lnr_high_performance.Keyed.Spelled.{Spelled, first_of}
use lnr_high_performance.Keyed.{Table, new_table, insert_row}
use lnr_high_performance.PhoneMapping.{phone_list, max_rows}
use lnr_high_performance.Tests.Concrete.{table, true-false}
use lnr_high_performance.Text.{
  codes, skip_spaces, take_sign, starts_digit, scan_digits, stoll, split_line, field, extract,
  delete_character,
}
use lnr_high_performance.Vendor.{Folly}
use lnr_high_performance.Dnc.{
  number_of, Strips, Spells, add_row, read_line, get_dncs, build, get_dncs-load,
}

program : Unit {0}
unfolding getline from_csv load_rows new_table insert_row phone_list skip_spaces take_sign
    starts_digit scan_digits stoll split_line field extract delete_character number_of add_row
    read_line
program = tt

abbrev F : Folly ℕ
F = table ℕ

abbrev lines : List Bytes
lines = codes "2125550123," ∷ []

abbrev content : Table F
content = record {
  meta = tt;
  dict = (2125550123, 1) ∷ [];
  pn_column = phone_list 2125550123 max_rows ∷ [];
  index = phone_list 1 max_rows ∷ [];
}

abbrev loaded : Loaded (Table F)
loaded = record { content = content; stream = at_end; line = 1; thrown = none }

load : load_rows (read_line F 0) 10000 9 (at (text_of lines [])) 0 (new_table F) ≡ done loaded
unfolding program
load = refl

abbrev asked : List (ℕ × ℕ)
asked = (2125550123, 7) ∷ (42, 7) ∷ []

strips : (line : Bytes) → Strips line (delete_character b',' line)
unfolding delete_character
strips [] = refl
strips (c ∷ line) = elim (Bool-cases (c == b',')) [
  | inl e ↦ rw e (inl ((==_iff c b',').0 e, strips line))
  | inr e ↦ rw e (
      inr (
        delete_character b',' line,
        λ same. true-false (sym ((==_iff c b',').1 same) ∙ e),
        refl,
        strips line,
      ))
]

abbrev rows : List (Option (ℕ × ℕ))
rows = some (2125550123, 1) ∷ []

spelled : Spelled Spells lines rows
unfolding program
spelled = ((codes "2125550123", strips (codes "2125550123,"), λ old. refl, refl), tt)

get_dncs-load_example :
    get_dncs F 16 (build F content) asked
    ≡ done (map (λ (p : ℕ × ℕ). answer (λ v. 1) (λ old. 0) (first_of p.0 rows) p.1) asked)
get_dncs-load_example =
    get_dncs-load F 0 9999 9 16 lines rows loaded spelled (omega arith) (omega arith) (omega arith)
      load refl asked
