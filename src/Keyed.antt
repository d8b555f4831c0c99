-- ===== src/Keyed.antt =====
-- What the siblings of callfwd/PhoneMapping.cpp share word for word: the data of a mapping from one
-- key to a value of type V, the update in `addRow`, `build`, and the answering loop of `getXs`.
pub mod Answers
pub mod Sides
pub mod Spelled
use lnr_high_performance.Base.{
  ℕ, Bool, Option, none, some, List, [], ◌∷◌, ◌++◌, map, leb, if◌then◌else◌, is_some, length,
  duplicate_key, too_much_rows, Result, ok, err, Run, done, and_then,
}
use lnr_high_performance.Batch.{batch}
use lnr_high_performance.PhoneMapping.{
  PhoneList, phone_list, max_rows, number_from, stable_sort, wire, unique,
}
use lnr_high_performance.Vendor.{Folly}

pub record Table {V : Type 0} (F : Folly V) : Type 0 where
  pub meta : F.Dynamic
  pub dict : F.Map
  pub pn_column : List PhoneList
  pub index : List PhoneList

module _ {V : Type 0} (F : Folly V) where
  unfoldable pub new_table : Table F
  new_table = record { meta = F.null_dynamic; dict = F.empty; pn_column = []; index = [] }

  unfoldable pub set_metadata : F.Dynamic → Table F → Table F
  set_metadata m d = record d { meta = m }

  -- the guards and the update of `addRow`; the value is built between them
  unfoldable pub insert_row : ℕ → ℕ → Result V → Table F → Result (Table F)
  insert_row k i value d =
      if is_some (F.find k d.dict)
      then err duplicate_key
      else if leb max_rows (length d.pn_column)
      then err too_much_rows
      else and_then value (λ v. ok (record d {
        dict = F.emplace k v d.dict;
        pn_column = d.pn_column ++ phone_list k max_rows ∷ [];
        index = d.index ++ phone_list i max_rows ∷ [];
      }))

  -- `Data::build`
  unfoldable pub build : Table F → Table F
  build d =
      let index = stable_sort (number_from 0 d.index) in
      record d { pn_column = wire index d.pn_column; index = unique index }

  unfoldable pub size : Table F → ℕ
  size d = length d.pn_column

  -- The inner loops of `getXs`: `key` is what a number is looked up by, `hit` what is written for a
  -- value that is found, and `miss` what becomes of an answer for which there is none.
  module _ {R : Type 0} (key : ℕ → ℕ) (hit : V → R) (miss : R → R) where
    unfoldable pub fill : F.Map → List F.Token → List (ℕ × R) → List R
    fill dict [] out = []
    fill dict (t ∷ ts) [] = []
    fill dict (t ∷ ts) (p ∷ out) =
        elim (F.find_token t (key p.0) dict) [ some v ↦ hit v | none ↦ miss p.1 ] ∷ fill dict ts out

    -- the numbers and what stands in the array of answers before, to what stands there then
    unfoldable pub get_all : ℕ → Table F → List (ℕ × R) → Run (List R)
    get_all prefetch d out =
        batch (λ (ps : List (ℕ × R)). fill d.dict (map (λ p. F.prehash (key p.0)) ps) ps) prefetch
          (length out) out

-- The body of the loop of `fromCSV`: a line that is skipped, one that is refused, and one of which
-- the columns go to `addRow`.
abbrev pub with_columns : {P D : Type 0} → Result (Option P) → (P → D → Result D) → D → Result D
with_columns columns add d = and_then columns λ o. elim o [ none ↦ ok d | some parts ↦ add parts d ]
