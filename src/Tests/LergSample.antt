-- ===== src/Tests/LergSample.antt =====
-- Lerg: a block and its exchange, loaded, built and asked.
use lnr_high_performance.Base.{
  ◌/◌, Option, some, inl, inr, ℕ, ◌≡◌, refl, List, [], ◌∷◌, map, Bytes, done, arith, none,
}
use lnr_high_performance.Csv.Lines.{text_of, at, at_end}
use lnr_high_performance.Csv.{getline, from_csv, load_rows, Loaded}
use lnr_high_performance.Keyed.Spelled.{Spelled}
use lnr_high_performance.Lerg.Rows.{first_row, with_block, get_lergs-load}
use lnr_high_performance.Lerg.Spelled.{Row, Spells, block, exchange}
use lnr_high_performance.Lerg.{
  LergData, Data, columns, is_exchange, key_of, text_field, data_of, new_data, insert_row, add_row,
  read_line, build, get_lergs,
}
use lnr_high_performance.PhoneMapping.{phone_list, max_rows}
use lnr_high_performance.Tests.Concrete.{table, all_bare-IsColumn}
use lnr_high_performance.Text.{
  codes, skip_spaces, take_sign, starts_digit, scan_digits, stoll, split_line, field,
}
use lnr_high_performance.Vendor.{Folly}

program : Unit {0}
unfolding getline from_csv load_rows new_data insert_row phone_list skip_spaces take_sign
    starts_digit scan_digits stoll split_line field columns is_exchange key_of text_field data_of
    add_row read_line
program = tt

abbrev F : Folly LergData
F = table LergData

abbrev lines : List Bytes
lines = codes "212,555,,NY,A,1,R,T,9,US" ∷ codes "212,555,3,NY,,2,R,T,9,US" ∷ []

abbrev carrier_of : ℕ → Bytes → Bytes → LergData
carrier_of key company ocn = record {
  lerg_key = key;
  state = codes "NY";
  company = company;
  ocn = ocn;
  rate_center = codes "R";
  ocn_type = codes "T";
  lata = codes "9";
  country = codes "US";
}

abbrev content : Data F
content = record {
  meta = tt;
  dic_npa_nxx_x = (2125553, carrier_of 2125553 (codes " ") (codes "2")) ∷ [];
  dic_npa_nxx = (212555, carrier_of 212555 (codes "A") (codes "1")) ∷ [];
  pn_column = phone_list 212555 max_rows ∷ phone_list 2125553 max_rows ∷ [];
  lerg_index = phone_list 212555 max_rows ∷ phone_list 2125553 max_rows ∷ [];
}

abbrev loaded : Loaded (Data F)
loaded = record { content = content; stream = at_end; line = 2; thrown = none }

load : load_rows (read_line F) 10000 9 (at (text_of lines [])) 0 (new_data F) ≡ done loaded
unfolding program
load = refl

abbrev asked : List (ℕ × LergData)
asked = (2125553123, carrier_of 7 [] []) ∷ (2125550123, carrier_of 7 [] []) ∷ []

abbrev exchange_texts : List Bytes
exchange_texts =
    codes "212"
    ∷ codes "555"
    ∷ []
    ∷ codes "NY"
    ∷ codes "A"
    ∷ codes "1"
    ∷ codes "R"
    ∷ codes "T"
    ∷ codes "9"
    ∷ codes "US"
    ∷ []

abbrev block_texts : List Bytes
block_texts =
    codes "212"
    ∷ codes "555"
    ∷ codes "3"
    ∷ codes "NY"
    ∷ []
    ∷ codes "2"
    ∷ codes "R"
    ∷ codes "T"
    ∷ codes "9"
    ∷ codes "US"
    ∷ []

abbrev rows : List (Option Row)
rows =
    some (
      exchange 212555 (codes "NY") (codes "A") (codes "1") (codes "R") (codes "T") (codes "9")
        (codes "US"))
    ∷ some
        (block 2125553 (codes "NY") [] (codes "2") (codes "R") (codes "T") (codes "9") (codes "US"))
    ∷ []

spelled : Spelled Spells lines rows
unfolding program
spelled = (
  (
    codes "212",
    codes "555",
    [],
    codes "NY",
    codes "A",
    codes "1",
    codes "R",
    codes "T",
    codes "9",
    codes "US",
    212,
    555,
    (all_bare-IsColumn exchange_texts refl, inl (refl, refl)),
    refl,
    refl,
    refl,
    inl (refl, refl),
  ),
  (
    (
      codes "212",
      codes "555",
      codes "3",
      codes "NY",
      [],
      codes "2",
      codes "R",
      codes "T",
      codes "9",
      codes "US",
      212,
      555,
      (all_bare-IsColumn block_texts refl, inl (refl, refl)),
      refl,
      refl,
      refl,
      inr (3, refl, refl, refl),
    ),
    tt,
  ),
)

get_lergs-load_example :
    get_lergs F 16 (build F content) asked
    ≡ done (
        map
          (λ (p : ℕ × LergData).
            with_block (first_row 0 (p.0 / 1000) rows) (first_row 1 (p.0 / 10000) rows) p.1)
          asked)
get_lergs-load_example =
    get_lergs-load F 9999 9 16 lines rows loaded spelled (omega arith) (omega arith) (omega arith)
      load refl asked
