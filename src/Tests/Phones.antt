-- ===== src/Tests/Phones.antt =====
-- The phone mapping at the rows of three numbers, two of them with one routing number.
use lnr_high_performance.Base.{
  ℕ, ◌+◌, ◌^◌, ◌<◌, ◌≡◌, ◌≢◌, false, refl, List, [], ◌∷◌, map, length, arith, none, some, Bytes,
  All, duplicate_key, stream_failure, err, done, ◌>>=◌,
}
use lnr_high_performance.Batch.{batch}
use lnr_high_performance.Csv.Lines.{text_of, at, at_end, outcome, run_lines}
use lnr_high_performance.Csv.Load.{load_rows-run_lines, load_rows_incomplete}
use lnr_high_performance.Csv.{Loaded, getline, from_csv, load_rows}
use lnr_high_performance.PhoneMapping.Answers.{get_rns-route}
use lnr_high_performance.PhoneMapping.Builder.{Holds, Refines, new_data-Holds, add_row-Refines}
use lnr_high_performance.PhoneMapping.Cursors.{drain}
use lnr_high_performance.PhoneMapping.Files.{take_line, Agrees, load_rows-Holds}
use lnr_high_performance.PhoneMapping.Inverse.{inverse_rns-select}
use lnr_high_performance.PhoneMapping.Rows.{
  Row, find_row, route, push_row, insert_by_rn, sort_by_rn, select,
}
use lnr_high_performance.PhoneMapping.Visit.{cut_row, visit_rows-cut, visit_rows-rows}
use lnr_high_performance.PhoneMapping.Lines.{to_numbers, two_columns, parse_line, read_line}
use lnr_high_performance.PhoneMapping.{
  Data, PhoneList, phone_list, max_rows, new_data, add_row, build, number_from, with_next, cmp,
  insert_sorted, stable_sort, wire, unique, unique_after, lower_bound, next_or_end, refill,
  fill_rns, get_rns, get_rn, fetch, inverse_rns, visit_rows, advance_cursor, advance, current_pn,
  current_rn, size, none_number,
}
use lnr_high_performance.PhoneNumber.Laws.{Spells, from_string-Spells}
use lnr_high_performance.PhoneNumber.{
  keep_digits, strip_country, number_of, from_string, is_punctuation,
}
use lnr_high_performance.Tests.Concrete.{table, plain}
use lnr_high_performance.Text.{codes}
use lnr_high_performance.Vendor.{Folly, is_blank}

abbrev F : Folly ℕ
F = table ℕ

program : Unit {0}
unfolding batch getline from_csv load_rows phone_list new_data add_row build number_from with_next
    cmp insert_sorted stable_sort wire unique unique_after lower_bound next_or_end refill fill_rns
    get_rns get_rn fetch inverse_rns visit_rows advance_cursor advance current_pn current_rn size
    to_numbers two_columns parse_line read_line drain find_row push_row insert_by_rn sort_by_rn
    select take_line run_lines route keep_digits strip_country number_of from_string
program = tt

abbrev rows : List Row
rows = (555, 111) ∷ (666, 42) ∷ (777, 111) ∷ []

abbrev lines : List Bytes
lines = codes "555,111" ∷ codes "666,42" ∷ codes "777,111" ∷ []

load_rows-Holds_example :
    (l : Loaded (Data F)) × (load_rows
        (read_line plain F)
        10000
        9
        (at (text_of lines []))
        0
        (new_data F)
      ≡ done l)
    × Agrees plain F (run_lines (take_line plain) lines 0 []) (outcome (read_line plain F) l)
load_rows-Holds_example = load_rows-Holds plain F 9999 9 lines (omega arith) (omega arith)

abbrev cell : ℕ → PhoneList
cell n = phone_list n max_rows

abbrev sample : Data F
sample = record {
  meta = tt;
  dict = (777, 111) ∷ (666, 42) ∷ (555, 111) ∷ [];
  pn_column = cell 555 ∷ cell 666 ∷ cell 777 ∷ [];
  rn_index = cell 111 ∷ cell 42 ∷ cell 111 ∷ [];
}

sample_loaded :
    (load_rows (read_line plain F) 2 9 (at (text_of lines [])) 0 (new_data F))
    ≡ done (record { content = sample; stream = at_end; line = 3; thrown = none })
unfolding program
sample_loaded = refl

one-Holds : Holds F ((555, 111) ∷ []) (record {
  meta = tt;
  dict = (555, 111) ∷ [];
  pn_column = cell 555 ∷ [];
  rn_index = cell 111 ∷ [];
})
unfolding program
one-Holds = add_row-Refines F (new_data-Holds F) 555 111

two-Holds : Holds F ((555, 111) ∷ (666, 42) ∷ []) (record {
  meta = tt;
  dict = (666, 42) ∷ (555, 111) ∷ [];
  pn_column = cell 555 ∷ cell 666 ∷ [];
  rn_index = cell 111 ∷ cell 42 ∷ [];
})
unfolding program
two-Holds = add_row-Refines F one-Holds 666 42

sample-Holds : Holds F rows sample
unfolding program
sample-Holds = add_row-Refines F two-Holds 777 111

inverse_rns-select_example :
    (inverse_rns F 16 100 200 (build F sample) >>= drain F 16 9)
    ≡ done (select 100 200 (sort_by_rn rows))
inverse_rns-select_example =
    inverse_rns-select F 16 (omega arith) sample-Holds (omega arith) 100 200 9 (omega arith)
      (omega arith) (omega arith)

inverse_run :
    (inverse_rns F 16 40 200 (build F sample) >>= drain F 16 9)
    ≡ done ((666, 42) ∷ (555, 111) ∷ (777, 111) ∷ [])
unfolding program
inverse_run = refl

get_rns-route_example :
    get_rns F 2 (build F sample) (777 ∷ 1 ∷ 666 ∷ []) ≡ done (map (route rows) (777 ∷ 1 ∷ 666 ∷ []))
get_rns-route_example = get_rns-route F 2 (omega arith) sample-Holds (777 ∷ 1 ∷ 666 ∷ [])

visit_rows-rows_example : (visit_rows F 16 (build F sample) >>= drain F 16 9) ≡ done rows
visit_rows-rows_example =
    visit_rows-rows F sample-Holds (omega arith) 16 9 (omega arith) (omega arith)

add_row-Refines_example : Refines F (push_row rows (555, 7)) (add_row F sample 555 7)
add_row-Refines_example = add_row-Refines F sample-Holds 555 7

duplicate_run : add_row F sample 555 7 ≡ err duplicate_key
unfolding program
duplicate_run = refl

-- a number that does not fit 34 bits
abbrev wide : List Row
wide = (2 ^ 34 + 5, 111) ∷ []

abbrev wide_data : Data F
wide_data = record {
  meta = tt;
  dict = (2 ^ 34 + 5, 111) ∷ [];
  pn_column = cell (2 ^ 34 + 5) ∷ [];
  rn_index = cell 111 ∷ [];
}

wide-Holds : Holds F wide wide_data
unfolding program
wide-Holds = add_row-Refines F (new_data-Holds F) (2 ^ 34 + 5) 111

visit_rows-cut_example :
    (size (build F wide_data) ≡ 1)
    × ((visit_rows F 16 (build F wide_data) >>= drain F 16 9) ≡ done (map (cut_row wide) wide))
visit_rows-cut_example = visit_rows-cut F wide-Holds 16 9 (omega arith) (omega arith)

-- the listing shows another number, with no routing number
wide_run : (visit_rows F 16 (build F wide_data) >>= drain F 16 9) ≡ done ((5, none_number) ∷ [])
unfolding program
wide_run = refl

load_rows-run_lines_example :
    (l : Loaded (Data F)) × (load_rows
        (read_line plain F)
        2
        9
        (at (text_of lines []))
        0
        (new_data F)
      ≡ done l)
    × (outcome (read_line plain F) l ≡ run_lines (read_line plain F) lines 0 (new_data F))
load_rows-run_lines_example =
    load_rows-run_lines (read_line plain F) 1 9 lines 0 (new_data F) (omega arith) (omega arith)

abbrev one_line : Data F
one_line = record {
  meta = tt;
  dict = (555, 111) ∷ [];
  pn_column = cell 555 ∷ [];
  rn_index = cell 111 ∷ [];
}

one_line_run :
    run_lines (read_line plain F) (codes "555,111" ∷ []) 0 (new_data F) ≡ (one_line, 1, none)
unfolding program
one_line_run = refl

load_rows_incomplete_example :
    load_rows (read_line plain F) 10000 9 (at (text_of [] (codes "555,111"))) 0 (new_data F)
    ≡ done (record { content = one_line; stream = at_end; line = 1; thrown = some stream_failure })
load_rows_incomplete_example =
    load_rows_incomplete (read_line plain F) 10000 9 [] b'5' (codes "55,111") 0 1 (new_data F)
      one_line tt (omega arith) one_line_run (omega arith) (omega arith)

parsed : from_string plain (codes "  (484)-424-96-83  ") ≡ 4844249683
unfolding program
parsed = refl

parsed-ne-none : from_string plain (codes "+1 484 4249683") ≢ none_number
unfolding program
parsed-ne-none = omega arith

from_string-Spells_example :
    (digits : Bytes) × (length digits ≡ 10)
    × Spells (keep_digits (plain.trim_whitespace (codes "+1 484 4249683"))) digits
    × (plain.try_to_uint64 digits ≡ some (from_string plain (codes "+1 484 4249683")))
    × (from_string plain (codes "+1 484 4249683") < 10 ^ 10)
from_string-Spells_example = from_string-Spells plain (codes "+1 484 4249683") parsed-ne-none

ten_clean : All (λ c. (is_blank c ≡ false) × (is_punctuation c ≡ false)) (codes "4844249683")
ten_clean = ground arith
