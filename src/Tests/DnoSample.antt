-- ===== src/Tests/DnoSample.antt =====
-- Dno: a file of exchanges, loaded and asked.
use lnr_high_performance.Base.{
  ℕ, ◌≡◌, refl, List, [], ◌∷◌, map, Bytes, done, arith, none, if◌then◌else◌, ◌==◌,
}
use lnr_high_performance.Csv.Lines.{text_of, at, at_end}
use lnr_high_performance.Csv.{getline, from_csv, load_rows, Loaded}
use lnr_high_performance.Dno.Answers.{get_dnos-listed}
use lnr_high_performance.Dno.Entries.{is_listed}
use lnr_high_performance.Dno.{
  dno_npa_nxx, other, Data, columns, key_of, new_data, add_row, read_line, get_dnos,
}
use lnr_high_performance.Tests.Concrete.{table}
use lnr_high_performance.Text.{
  codes, skip_spaces, take_sign, starts_digit, scan_digits, stoll, split_line, field,
  delete_character,
}
use lnr_high_performance.Vendor.{Folly}

program : Unit {0}
unfolding getline from_csv load_rows new_data skip_spaces take_sign starts_digit scan_digits stoll
    split_line field delete_character columns key_of add_row read_line
program = tt

abbrev F : Folly ℕ
F = table ℕ

abbrev lines : List Bytes
lines = codes "212-555,x,y" ∷ []

abbrev content : Data F
content = record {
  meta = tt;
  dict = [];
  dict_npa = [];
  dict_npa_nxx = (212555, 1) ∷ [];
  dict_npa_nxx_x = [];
}

abbrev loaded : Loaded (Data F)
loaded = record { content = content; stream = at_end; line = 1; thrown = none }

load :
    load_rows (read_line F dno_npa_nxx) 10000 9 (at (text_of lines [])) 0 (new_data F) ≡ done loaded
unfolding program
load = refl

named : ¬ (dno_npa_nxx ≡ other)
named h = cc

abbrev asked : List (ℕ × ℕ)
asked = (2125550123, 0) ∷ (3125550123, 0) ∷ (3125550123, 9) ∷ []

get_dnos-listed_example :
    get_dnos F 16 content asked
    ≡ done (
        map
          (λ (p : ℕ × ℕ).
            if p.1 == 0 then (if is_listed dno_npa_nxx lines p.0 then 1 else 0) else p.1)
          asked)
get_dnos-listed_example =
    get_dnos-listed F dno_npa_nxx 9999 9 16 lines loaded named (omega arith) (omega arith)
      (omega arith) load refl asked
