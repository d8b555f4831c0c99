-- ===== src/PhoneMapping/Order.antt =====
-- The sorted index lists the rows by routing number, equal ones in insertion order.
use lnr_high_performance.Base.{
  ℕ, suc, zero, ◌+◌, ◌%◌, ◌^◌, ◌≤◌, ◌<◌, ◌≡◌, refl, ap, ◌∙◌, none, some, List, [], ◌∷◌, map, arith,
  length, get_elem?, ltb, All, Bool-cases, inl, inr,
}
use lnr_high_performance.PhoneMapping.Builder.{pn_cell, rn_cell}
use lnr_high_performance.PhoneMapping.Rows.{
  Row, Fits, IsKeyed, find_row, insert_by_rn, sort_by_rn, select,
}
use lnr_high_performance.PhoneMapping.Sorting.{All-stable_sort, number_from-ge}
use lnr_high_performance.PhoneMapping.{
  PhoneList, phone_list, max_rows, with_next, cmp, number_from, insert_sorted, stable_sort,
}

-- the row that an index entry stands for, where `f` gives the numbers of the column
abbrev pub entry_row : (ℕ → ℕ) → PhoneList → Row
entry_row f e = (f e.next, e.phone)

abbrev pub phone_of : List PhoneList → ℕ → ℕ
phone_of column i = elim (get_elem? column i) [ none ↦ 0 | some c ↦ c.phone ]

abbrev IsIncreasing : List PhoneList → Type 0
IsIncreasing [] = Unit
IsIncreasing (p ∷ ps) = All (λ q. p.next < q.next) ps × IsIncreasing ps

cmp_later : (p q : PhoneList) → p.next < q.next → cmp q p ≡ ltb q.phone p.phone
unfolding cmp
cmp_later p q h = ground arith

module _ (f : ℕ → ℕ) where
  insert_sorted-rows :
      (p : PhoneList) (qs : List PhoneList)
      → All (λ q. p.next < q.next) qs
      → map (entry_row f) (insert_sorted p qs) ≡ insert_by_rn (entry_row f p) (map (entry_row f) qs)
  unfolding insert_sorted insert_by_rn
  insert_sorted-rows p [] h = refl
  insert_sorted-rows p (q ∷ qs) h =
      rw (cmp_later p q h.0) (elim (Bool-cases (ltb q.phone p.phone)) [
        | inl t ↦ rw t (ap (◌∷◌ (entry_row f q)) (insert_sorted-rows p qs h.1))
        | inr n ↦ rw n
      ])

  pub stable_sort-rows :
      (ps : List PhoneList)
      → IsIncreasing ps
      → map (entry_row f) (stable_sort ps) ≡ sort_by_rn (map (entry_row f) ps)
  unfolding stable_sort sort_by_rn
  stable_sort-rows [] h = refl
  stable_sort-rows (p ∷ ps) h =
      insert_sorted-rows p (stable_sort ps) (All-stable_sort _ ps h.0)
      ∙ ap (insert_by_rn (entry_row f p)) (stable_sort-rows ps h.1)

  abbrev pub IsAligned : ℕ → List Row → Type 0
  IsAligned i [] = Unit
  IsAligned i (r ∷ rows) = (f i ≡ r.0) × IsAligned (suc i) rows

  pub number_from-rows :
      (i : ℕ) (rows : List Row)
      → i + length rows ≤ 2 ^ 30
      → All Fits rows
      → IsAligned i rows
      → map (entry_row f) (number_from i (map rn_cell rows)) ≡ rows
  unfolding number_from with_next phone_list
  number_from-rows i [] h fits a = refl
  number_from-rows i (r ∷ rows) h fits a =
      let place : i % 2 ^ 30 ≡ i = omega arith in
      let number : r.1 % 2 ^ 34 ≡ r.1 = omega (arith, fits.0.1) in
      rw (place, number, a.0, number_from-rows (suc i) rows (omega arith) fits.1 a.1)

  pub select_none :
      (from to : ℕ) (ps : List PhoneList)
      → All (λ q. to ≤ q.phone) ps
      → select from to (map (entry_row f) ps) ≡ []
  unfolding select
  select_none from to [] h = refl
  select_none from to (p ∷ ps) h = ground (arith, select_none from to ps h.1)

pub number_from-IsIncreasing :
    (i : ℕ) (ps : List PhoneList) → i + length ps ≤ 2 ^ 30 → IsIncreasing (number_from i ps)
unfolding number_from with_next
number_from-IsIncreasing i [] h = tt
number_from-IsIncreasing i (p ∷ ps) h = (
  above (number_from (suc i) ps) (number_from-ge (suc i) ps (omega arith)),
  number_from-IsIncreasing (suc i) ps (omega arith),
)
  where
    above :
        (qs : List PhoneList)
        → All (λ q. (suc i ≤ q.next) × (q.next < suc i + length ps)) qs
        → All (λ q. i % 2 ^ 30 < q.next) qs
    above [] k = tt
    above (q ∷ qs) k = (omega arith, above qs k.1)

IsAligned-shift :
    (c : PhoneList) (column : List PhoneList) (i : ℕ) (rows : List Row)
    → IsAligned (phone_of column) i rows
    → IsAligned (phone_of (c ∷ column)) (suc i) rows
IsAligned-shift c column i [] h = tt
IsAligned-shift c column i (r ∷ rows) h = (h.0, IsAligned-shift c column (suc i) rows h.1)

pub column-IsAligned :
    (rows : List Row) → All Fits rows → IsAligned (phone_of (map pn_cell rows)) 0 rows
unfolding phone_list
column-IsAligned [] h = tt
column-IsAligned (r ∷ rows) h = (
  omega (arith, h.0.0),
  IsAligned-shift (pn_cell r) (map pn_cell rows) 0 rows (column-IsAligned rows h.1),
)

pub column-IsUnwired :
    (rows : List Row) (i : ℕ)
    → i < length rows
    → get_elem? (map pn_cell rows) i
      ≡ some (record { phone = phone_of (map pn_cell rows) i; next = max_rows })
unfolding phone_list
column-IsUnwired [] i h = absurd (omega arith)
column-IsUnwired (r ∷ rows) zero h = refl
column-IsUnwired (r ∷ rows) (suc i) h = column-IsUnwired rows i (omega arith)

-- every row of a keyed list is found under its number
pub find_row_self :
    (rows : List Row) → IsKeyed rows → All (λ (r : Row). find_row r.0 rows ≡ some r.1) rows
unfolding find_row
find_row_self [] h = tt
find_row_self (r ∷ rows) h = (ground arith, behind rows (find_row_self rows h.1))
  where
    behind :
        (qs : List Row)
        → All (λ (q : Row). find_row q.0 rows ≡ some q.1) qs
        → All (λ (q : Row). find_row q.0 (r ∷ rows) ≡ some q.1) qs
    behind [] k = tt
    behind (q ∷ qs) k = (ground (arith, h.0, k.0), behind qs k.1)
