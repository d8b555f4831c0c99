-- ===== src/Lerg.antt =====
-- callfwd/LergMapping.cpp: the carrier of a number, by its first seven digits or its first six.
pub mod Answers
pub mod Spelled
pub mod Rows
use lnr_high_performance.Base.{
  ℕ, ◌+◌, ◌*◌, ◌/◌, ◌%◌, ◌^◌, Bool, not, Option, none, some, List, [], ◌∷◌, ◌++◌, map, length,
  Bytes, leb, ◌==◌, if◌then◌else◌, is_some, get_or, duplicate_key, too_much_rows, bad_columns,
  Result, ok, err, and_then, Run, done, ◌>>=◌,
}
use lnr_high_performance.Batch.{batch}
use lnr_high_performance.Keyed.{with_columns}
use lnr_high_performance.PhoneMapping.{
  PhoneList, phone_list, max_rows, number_from, stable_sort, wire, unique,
}
use lnr_high_performance.Text.{stoll, split_line, starts_digit, field}
use lnr_high_performance.Vendor.{Folly}

pub record LergData : Type 0 where
  pub lerg_key : ℕ
  pub state : Bytes
  pub company : Bytes
  pub ocn : Bytes
  pub rate_center : Bytes
  pub ocn_type : Bytes
  pub lata : Bytes
  pub country : Bytes

pub record Data (F : Folly LergData) : Type 0 where
  pub meta : F.Dynamic
  pub dic_npa_nxx_x : F.Map
  pub dic_npa_nxx : F.Map
  pub pn_column : List PhoneList
  pub lerg_index : List PhoneList

-- the tests of `fromCSV` on a line, and its columns
unfoldable pub columns : Bytes → Result (Option (List Bytes))
columns line =
    let parts = split_line line in
    if not (starts_digit line)
    then ok none
    else if length parts == 10
    then ok (some parts)
    else err bad_columns

-- a row of an exchange: the third column is empty
unfoldable pub is_exchange : List Bytes → Bool
is_exchange parts = length (get_or parts 2 []) == 0

-- the sum of two or three numbers, computed modulo 2^64
unfoldable pub key_of : List Bytes → Result ℕ
key_of parts = and_then (field 0 parts) λ s0. and_then (stoll s0) λ npa.
    and_then (field 1 parts) λ s1. and_then (stoll s1) λ nxx.
      if is_exchange parts
      then ok ((npa * 1000 + nxx) % 2 ^ 64)
      else (and_then (field 2 parts)
          λ s2. and_then (stoll s2) λ x. ok ((npa * 10000 + nxx * 10 + x) % 2 ^ 64))

-- `(rowbuf[i] == "" ? std::string(" ") : rowbuf[i])`, for a row of a block only
unfoldable pub text_field : ℕ → List Bytes → Result Bytes
text_field i parts =
    and_then (field i parts)
      λ s. ok (if is_exchange parts then s else if length s == 0 then b' ' ∷ [] else s)

unfoldable pub data_of : ℕ → List Bytes → Result LergData
data_of lerg_key parts = and_then (text_field 3 parts) λ state.
    and_then (text_field 4 parts) λ company. and_then (text_field 5 parts) λ ocn.
      and_then (text_field 6 parts) λ rate_center. and_then (text_field 7 parts) λ ocn_type.
        and_then (text_field 8 parts) λ lata. and_then (text_field 9 parts) λ country. ok (record {
          lerg_key = lerg_key;
          state = state;
          company = company;
          ocn = ocn;
          rate_center = rate_center;
          ocn_type = ocn_type;
          lata = lata;
          country = country;
        })

-- what is written for a find, into an answer that holds `old`
unfoldable pub write : Option LergData → LergData → LergData
write (some v) old = v
write none old = record old { lerg_key = 0 }

module _ (F : Folly LergData) where
  unfoldable pub new_data : Data F
  new_data = record {
    meta = F.null_dynamic;
    dic_npa_nxx_x = F.empty;
    dic_npa_nxx = F.empty;
    pn_column = [];
    lerg_index = [];
  }

  unfoldable pub set_metadata : F.Dynamic → Data F → Data F
  set_metadata m d = record d { meta = m }

  -- the guards and the update, in the map of the row's kind
  unfoldable pub insert_row : Bool → ℕ → Result LergData → Data F → Result (Data F)
  insert_row exchange k value d =
      if is_some (F.find k (if exchange then d.dic_npa_nxx else d.dic_npa_nxx_x))
      then err duplicate_key
      else if leb max_rows (length d.pn_column)
      then err too_much_rows
      else and_then value λ v. ok (record d {
        dic_npa_nxx = if exchange then F.emplace k v d.dic_npa_nxx else d.dic_npa_nxx;
        dic_npa_nxx_x = if exchange then d.dic_npa_nxx_x else F.emplace k v d.dic_npa_nxx_x;
        pn_column = d.pn_column ++ phone_list k max_rows ∷ [];
        lerg_index = d.lerg_index ++ phone_list k max_rows ∷ [];
      })

  unfoldable pub add_row : List Bytes → Data F → Result (Data F)
  add_row parts d =
      and_then (key_of parts) λ k. insert_row (is_exchange parts) k (data_of k parts) d

  -- the body of the loop of `fromCSV`
  unfoldable pub read_line : Bytes → Data F → Result (Data F)
  read_line line d = with_columns (columns line) add_row d

  -- `Data::build`
  unfoldable pub build : Data F → Data F
  build d =
      let index = stable_sort (number_from 0 d.lerg_index) in
      record d { pn_column = wire index d.pn_column; lerg_index = unique index }

  -- the second loop of `getLergs`: the block first, and the exchange where the key is 0
  unfoldable pub fill : Data F → List (F.Token × F.Token) → List (ℕ × LergData) → List LergData
  fill d [] out = []
  fill d (t ∷ ts) [] = []
  fill d (t ∷ ts) (p ∷ out) =
      let block = write (F.find_token t.0 (p.0 / 1000) d.dic_npa_nxx_x) p.1 in
      (if block.lerg_key == 0
        then write (F.find_token t.1 (p.0 / 1000 / 10) d.dic_npa_nxx) block
        else block)
      ∷ fill d ts out

  unfoldable pub get_lergs : ℕ → Data F → List (ℕ × LergData) → Run (List LergData)
  get_lergs prefetch d out =
      batch
        (λ (ps : List (ℕ × LergData)).
          fill d (map (λ p. (F.prehash (p.0 / 1000), F.prehash (p.0 / 1000 / 10))) ps) ps)
        prefetch (length out) out

  -- `old` is what the local variable holds before
  unfoldable pub get_lerg : ℕ → Data F → LergData → ℕ → Run LergData
  get_lerg prefetch d old pn =
      get_lergs prefetch d ((pn, old) ∷ []) >>= λ out. done (get_or out 0 old)
