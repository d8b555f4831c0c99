-- ===== src/Dno.antt =====
-- callfwd/DnoMapping.cpp: the numbers that no call comes from, listed whole or by their first digits.
pub mod Entries
pub mod Answers
use lnr_high_performance.Base.{
  ℕ, ◌/◌, Bool, not, Option, none, some, List, [], ◌∷◌, map, length, Bytes, ◌==◌, if◌then◌else◌,
  is_some, get_or, duplicate_key, bad_columns, Result, ok, err, and_then, Run, done, ◌>>=◌,
}
use lnr_high_performance.Batch.{batch}
use lnr_high_performance.Keyed.{with_columns}
use lnr_high_performance.Text.{stoll, split_line, starts_digit, field, delete_character}
use lnr_high_performance.Vendor.{Folly}

-- the strings that `dnotype` is compared with, and any other string
pub data DnoType : Type 0 where
  dno dno_npa dno_npa_nxx dno_npa_nxx_x other : DnoType

pub record Data (F : Folly ℕ) : Type 0 where
  pub meta : F.Dynamic
  pub dict : F.Map
  pub dict_npa : F.Map
  pub dict_npa_nxx : F.Map
  pub dict_npa_nxx_x : F.Map

-- the tests of `fromCSV` on a line, and its columns
unfoldable pub columns : Bytes → Result (Option (List Bytes))
columns line =
    let parts = split_line line in
    if not (starts_digit line)
    then ok none
    else if length parts == 3
    then ok (some parts)
    else err bad_columns

unfoldable pub key_of : List Bytes → Result ℕ
key_of parts = and_then (field 0 parts) λ s. stoll (delete_character b'-' s)

-- one `if (dno[i] == 0)`
unfoldable pub probe : Option ℕ → ℕ → ℕ
probe it old = if old == 0 then (if is_some it then 1 else 0) else old

module _ (F : Folly ℕ) where
  unfoldable pub new_data : Data F
  new_data = record {
    meta = F.null_dynamic;
    dict = F.empty;
    dict_npa = F.empty;
    dict_npa_nxx = F.empty;
    dict_npa_nxx_x = F.empty;
  }

  unfoldable pub set_metadata : F.Dynamic → Data F → Data F
  set_metadata m d = record d { meta = m }

  unfoldable pub add_row : ℕ → DnoType → ℕ → Data F → Result (Data F)
  add_row pn dno value d =
      if is_some (F.find pn d.dict)
      then err duplicate_key
      else ok (record d { dict = F.emplace pn value d.dict })
  add_row pn dno_npa value d =
      if is_some (F.find pn d.dict_npa)
      then err duplicate_key
      else ok (record d { dict_npa = F.emplace pn value d.dict_npa })
  add_row pn dno_npa_nxx value d =
      if is_some (F.find pn d.dict_npa_nxx)
      then err duplicate_key
      else ok (record d { dict_npa_nxx = F.emplace pn value d.dict_npa_nxx })
  add_row pn dno_npa_nxx_x value d =
      if is_some (F.find pn d.dict_npa_nxx_x)
      then err duplicate_key
      else ok (record d { dict_npa_nxx_x = F.emplace pn value d.dict_npa_nxx_x })
  add_row pn other value d = ok d

  -- the body of the loop of `fromCSV`
  unfoldable pub read_line : DnoType → Bytes → Data F → Result (Data F)
  read_line kind line d =
      with_columns (columns line) (λ parts d. and_then (key_of parts) λ pn. add_row pn kind 1 d) d

  -- the second loop of `getDNOs`; a token of each map stands for a number
  unfoldable pub fill :
      Data F → List (F.Token × F.Token × F.Token × F.Token) → List (ℕ × ℕ) → List ℕ
  fill d [] out = []
  fill d (t ∷ ts) [] = []
  fill d (t ∷ ts) (p ∷ out) =
      let a = probe (F.find_token t.1 (p.0 / 10000000) d.dict_npa) p.1 in
      let b = probe (F.find_token t.2 (p.0 / 10000) d.dict_npa_nxx) a in
      let c = probe (F.find_token t.3 (p.0 / 1000) d.dict_npa_nxx_x) b in
      probe (F.find_token t.0 p.0 d.dict) c ∷ fill d ts out

  abbrev pub tokens : ℕ → F.Token × F.Token × F.Token × F.Token
  tokens pn =
      (F.prehash pn, F.prehash (pn / 10000000), F.prehash (pn / 10000), F.prehash (pn / 1000))

  -- the array of answers is read before it is written
  unfoldable pub get_dnos : ℕ → Data F → List (ℕ × ℕ) → Run (List ℕ)
  get_dnos prefetch d out =
      batch (λ (ps : List (ℕ × ℕ)). fill d (map (λ (p : ℕ × ℕ). tokens p.0) ps) ps) prefetch
        (length out) out

  -- `old` is what the local variable, which nothing initializes, holds before
  unfoldable pub get_dno : ℕ → Data F → ℕ → ℕ → Run ℕ
  get_dno prefetch d old pn =
      get_dnos prefetch d ((pn, old) ∷ []) >>= λ out. done (get_or out 0 old)
