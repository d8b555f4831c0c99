-- ===== src/PhoneMapping/Builder.antt =====
-- The builder refines the list of its rows.
use lnr_high_performance.Base.{
  ℕ, ◌≤◌, ◌<◌, ◌≡◌, refl, sym, ◌∙◌, List, [], ◌∷◌, ◌++◌, map, arith, length, none, Result, ok, err,
  Option-cases, Bool-cases, inl, inr, length-append, length-map, leb,
}
use lnr_high_performance.PhoneMapping.Rows.{
  Row, find_row, push_row, IsKeyed, find_row-append, IsKeyed-append,
}
use lnr_high_performance.PhoneMapping.{Data, PhoneList, phone_list, max_rows, new_data, add_row}
use lnr_high_performance.Vendor.{Folly}
use mathlib.Core.List.{map-append}

abbrev pub pn_cell : Row → PhoneList
pn_cell r = phone_list r.0 max_rows

abbrev pub rn_cell : Row → PhoneList
rn_cell r = phone_list r.1 max_rows

module _ (F : Folly ℕ) where
  -- the data of a builder that was given these rows
  pub record Holds (rows : List Row) (d : Data F) : Type 0 where
    pub column : d.pn_column ≡ map pn_cell rows
    pub index : d.rn_index ≡ map rn_cell rows
    pub reads : (k : ℕ) → F.find k d.dict ≡ find_row k rows
    pub keyed : IsKeyed rows
    pub few : length rows ≤ max_rows

  -- a failed `addRow` fails alike, and a successful one leaves related states
  abbrev pub Refines : Result (List Row) → Result (Data F) → Type 0
  Refines (ok rows) (ok d) = Holds rows d
  Refines (err e) (err e') = e ≡ e'
  Refines _ _ = ⊥

  -- A new builder holds no row.
  pub new_data-Holds : Holds [] (new_data F)
  unfolding new_data find_row
  new_data-Holds = record {
    column = refl;
    index = refl;
    reads = F.find-empty;
    keyed = tt;
    few = omega arith;
  }

  module _ {rows : List Row} {d : Data F} (h : Holds rows d) (pn rn : ℕ) where
    length_column : length d.pn_column ≡ length rows
    length_column = rw h.column (length-map pn_cell rows)

    pushed-Holds :
        find_row pn rows ≡ none
        → length rows < max_rows
        → Holds (rows ++ (pn, rn) ∷ []) (record d {
          dict = F.emplace pn rn d.dict;
          pn_column = d.pn_column ++ phone_list pn max_rows ∷ [];
          rn_index = d.rn_index ++ phone_list rn max_rows ∷ [];
        })
    pushed-Holds absent room = record {
      column = rw h.column (sym (map-append pn_cell rows _));
      index = rw h.index (sym (map-append rn_cell rows _));
      reads = λ k.
          rw (F.find-emplace pn k rn d.dict (h.reads pn ∙ absent), find_row-append, h.reads k)
            (unfold find_row in ground arith);
      keyed = IsKeyed-append rows (pn, rn) h.keyed absent;
      few = rw length-append (omega arith);
    }

    -- `addRow` throws "duplicate key" for a key that is there, "too much rows" at the limit, and
    -- otherwise appends the row; in every case as the list of rows says.
    pub add_row-Refines : Refines (push_row rows (pn, rn)) (add_row F d pn rn)
    unfolding add_row push_row
    add_row-Refines = elim (Option-cases (find_row pn rows)) [
      | inr (v, e) ↦ rw (h.reads pn, e)
      | inl e ↦
          rw (h.reads pn, e, length_column)
            (elim (Bool-cases (leb max_rows (length rows))) [
              | inl full ↦ rw full
              | inr free ↦ rw free (pushed-Holds e (ground arith))
            ])
    ]
