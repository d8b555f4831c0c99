-- ===== src/Dno/Entries.antt =====
-- What the lines of a file of one kind enter in the four maps.
use lnr_high_performance.Base.{
  ok_err, ok_inj, ℕ, ◌/◌, ◌≡◌, inl, inr, refl, sym, ap, ◌∙◌, Bool, false, Option, none, some, List,
  [], ◌∷◌, arith, Bytes, ◌==◌, if◌then◌else◌, is_some, ok, and_then, Result-cases, Option-cases,
  Bool-cases,
}
use lnr_high_performance.Dno.{
  DnoType, dno, dno_npa, dno_npa_nxx, dno_npa_nxx_x, other, Data, columns, key_of, new_data,
  add_row, read_line,
}
use lnr_high_performance.Keyed.Sides.{Entry, Stepped, find_side}
use lnr_high_performance.Vendor.{Folly}

abbrev pub side : DnoType → ℕ
side dno = 0
side dno_npa = 1
side dno_npa_nxx = 2
side dno_npa_nxx_x = 3
side other = 4

-- what of a number a file of this kind lists
abbrev pub first_digits : DnoType → ℕ → ℕ
first_digits dno pn = pn
first_digits dno_npa pn = pn / 10000000
first_digits dno_npa_nxx pn = pn / 10000
first_digits dno_npa_nxx_x pn = pn / 1000
first_digits other pn = pn

unfoldable pub entry : DnoType → Bytes → Entry ℕ
entry kind line = and_then (columns line) λ o. elim o [
  | none ↦ ok none
  | some parts ↦
      and_then (key_of parts) λ k. ok (if side kind == 4 then none else some (side kind, k, 1))
]

-- one of the lines of a file of this kind lists the number
unfoldable pub is_listed : DnoType → List Bytes → ℕ → Bool
is_listed kind ls pn = is_some (find_side (entry kind) (side kind) (first_digits kind pn) ls)

side_kind : (kind : DnoType) → ¬ (kind ≡ other) → (side kind == 4) ≡ false
side_kind dno n = refl
side_kind dno_npa n = refl
side_kind dno_npa_nxx n = refl
side_kind dno_npa_nxx_x n = refl
side_kind other n = absurd (n refl)

-- A file of one kind enters nothing in the maps of the others.
pub find_side_other :
    (kind : DnoType) (ls : List Bytes) (t j : ℕ)
    → (side kind == t) ≡ false
    → find_side (entry kind) t j ls ≡ none
unfolding find_side entry
find_side_other kind [] t j h = refl
find_side_other kind (l ∷ ls) t j h = elim (Result-cases (columns l)) [
  | inr (x, e) ↦ rw (find_side, entry, e) (find_side_other kind ls t j h)
  | inl (none, e) ↦ rw (find_side, entry, e) (find_side_other kind ls t j h)
  | inl (some parts, e) ↦ elim (Result-cases (key_of parts)) [
    | inr (x, f) ↦ rw (find_side, entry, e, and_then, f) (find_side_other kind ls t j h)
    | inl (k, f) ↦ elim (Bool-cases (side kind == 4)) [
      | inl four ↦ rw (find_side, entry, e, and_then, f, four) (find_side_other kind ls t j h)
      | inr less ↦ rw (find_side, entry, e, and_then, f, less, h) (find_side_other kind ls t j h)
    ]
  ]
]

module _ (F : Folly ℕ) where
  abbrev pub dict_of : ℕ → Data F → F.Map
  dict_of s d =
      if s == 0
      then d.dict
      else if s == 1
      then d.dict_npa
      else if s == 2
      then d.dict_npa_nxx
      else if s == 3
      then d.dict_npa_nxx_x
      else F.empty

  abbrev Steps : DnoType → Bytes → Data F → Data F → Type 0
  Steps kind = Stepped F dict_of (entry kind) (read_line F kind)

  abbrev Added : DnoType → ℕ → Data F → Data F → Type 0
  Added kind k d d' =
      (F.find k (dict_of (side kind) d) ≡ none)
      × ((t : ℕ)
          → dict_of t d'
            ≡ (if side kind == t then F.emplace k 1 (dict_of (side kind) d) else dict_of t d))

  add_row_ok :
      (kind : DnoType) (k : ℕ) (d d' : Data F)
      → ¬ (kind ≡ other)
      → add_row F k kind 1 d ≡ ok d'
      → Added kind k d d'
  unfolding add_row
  add_row_ok dno k d d' n h = elim (Option-cases (F.find k d.dict)) [
    | inr (v, e) ↦ absurd (ok_err (rw e at h))
    | inl absent ↦ (absent, λ t. sym (ap (dict_of t) (ok_inj (rw absent at h))) ∙ ground arith)
  ]
  add_row_ok dno_npa k d d' n h = elim (Option-cases (F.find k d.dict_npa)) [
    | inr (v, e) ↦ absurd (ok_err (rw e at h))
    | inl absent ↦ (absent, λ t. sym (ap (dict_of t) (ok_inj (rw absent at h))) ∙ ground arith)
  ]
  add_row_ok dno_npa_nxx k d d' n h = elim (Option-cases (F.find k d.dict_npa_nxx)) [
    | inr (v, e) ↦ absurd (ok_err (rw e at h))
    | inl absent ↦ (absent, λ t. sym (ap (dict_of t) (ok_inj (rw absent at h))) ∙ ground arith)
  ]
  add_row_ok dno_npa_nxx_x k d d' n h = elim (Option-cases (F.find k d.dict_npa_nxx_x)) [
    | inr (v, e) ↦ absurd (ok_err (rw e at h))
    | inl absent ↦ (absent, λ t. sym (ap (dict_of t) (ok_inj (rw absent at h))) ∙ ground arith)
  ]
  add_row_ok other k d d' n h = absurd (n refl)

  columns_ok :
      (kind : DnoType) (line : Bytes) (o : Option (List Bytes)) (d d' : Data F)
      → ¬ (kind ≡ other)
      → columns line ≡ ok o
      → read_line F kind line d ≡ ok d'
      → Steps kind line d d'
  unfolding read_line entry
  columns_ok kind line none d d' n c h =
      let same : d ≡ d' = ok_inj (rw (c, and_then) at h) in
      inl (rw (c, and_then), λ t. ap (dict_of t) (sym same))
  columns_ok kind line (some parts) d d' n c h = elim (Result-cases (key_of parts)) [
    | inr (x, e) ↦ absurd (ok_err (rw (c, and_then, e) at h))
    | inl (k, e) ↦
        let (absent, dicts) = add_row_ok kind k d d' n (rw (c, and_then, e) at h) in
        inr (side kind, k, 1, rw (c, and_then, e, side_kind kind n), absent, dicts)
  ]

  pub step_ok :
      (kind : DnoType)
      → ¬ (kind ≡ other)
      → (line : Bytes) (d d' : Data F) → read_line F kind line d ≡ ok d'
      → Steps kind line d d'
  unfolding read_line
  step_ok kind n line d d' h = elim (Result-cases (columns line)) [
    | inr (x, e) ↦ absurd (ok_err (rw (e, and_then) at h))
    | inl (o, e) ↦ columns_ok kind line o d d' n e h
  ]

  pub new_empty : (t : ℕ) → dict_of t (new_data F) ≡ F.empty
  unfolding new_data
  new_empty t = ground arith
