-- ===== src/PhoneMapping/Sorting.antt =====
-- The sorted index: what the sort keeps, and its order.
use native.Mathlib.Decide.{dec_le}
use lnr_high_performance.Base.{
  ℕ, suc, ◌+◌, ◌%◌, ◌^◌, ◌≤◌, ◌<◌, ◌≡◌, ◌≢◌, refl, sym, List, [], ◌∷◌, arith, length, true, false,
  Bool-cases, inl, inr, All, max,
}
use lnr_high_performance.PhoneMapping.{
  PhoneList, with_next, cmp, number_from, insert_sorted, stable_sort, unique_after, unique,
  lower_bound, next_or_end,
}

-- an index entry for each row, with the row's place in `next`
abbrev pub Distinct : List PhoneList → Type 0
Distinct [] = Unit
Distinct (p ∷ ps) = All (λ q. q.next ≢ p.next) ps × Distinct ps

abbrev pub IsSorted : List PhoneList → Type 0
IsSorted [] = Unit
IsSorted (p ∷ ps) = All (λ q. p.phone ≤ q.phone) ps × IsSorted ps

pub All-insert_sorted :
    (P : PhoneList → Type 0) (p : PhoneList) (qs : List PhoneList)
    → P p
    → All P qs
    → All P (insert_sorted p qs)
unfolding insert_sorted
All-insert_sorted P p [] h hs = (h, tt)
All-insert_sorted P p (q ∷ qs) h hs = elim (Bool-cases (cmp q p)) [
  | inl t ↦ rw t (hs.0, All-insert_sorted P p qs h hs.1)
  | inr f ↦ rw f (h, hs)
]

pub All-stable_sort :
    (P : PhoneList → Type 0) (ps : List PhoneList) → All P ps → All P (stable_sort ps)
unfolding stable_sort
All-stable_sort P [] h = tt
All-stable_sort P (p ∷ ps) h = All-insert_sorted P p (stable_sort ps) h.0 (All-stable_sort P ps h.1)

insert_sorted-Distinct :
    (p : PhoneList) (qs : List PhoneList)
    → All (λ q. q.next ≢ p.next) qs
    → Distinct qs
    → Distinct (insert_sorted p qs)
unfolding insert_sorted
insert_sorted-Distinct p [] h d = (tt, tt)
insert_sorted-Distinct p (q ∷ qs) h d = elim (Bool-cases (cmp q p)) [
  | inl t ↦ rw t (
    All-insert_sorted (λ r. r.next ≢ q.next) p qs (λ e. h.0 (sym e)) d.0,
    insert_sorted-Distinct p qs h.1 d.1,
  )
  | inr f ↦ rw f (h, d)
]

pub stable_sort-Distinct : (ps : List PhoneList) → Distinct ps → Distinct (stable_sort ps)
unfolding stable_sort
stable_sort-Distinct [] d = tt
stable_sort-Distinct (p ∷ ps) d =
    insert_sorted-Distinct p (stable_sort ps) (All-stable_sort _ ps d.0)
      (stable_sort-Distinct ps d.1)

All-le_trans :
    (a b : ℕ) (qs : List PhoneList) → a ≤ b → All (λ q. b ≤ q.phone) qs → All (λ q. a ≤ q.phone) qs
All-le_trans a b [] h k = tt
All-le_trans a b (q ∷ qs) h k = (omega arith, All-le_trans a b qs h k.1)

cmp-true : (q p : PhoneList) → cmp q p ≡ true → q.phone ≤ p.phone
unfolding cmp
cmp-true q p h = ground arith

cmp-false : (q p : PhoneList) → cmp q p ≡ false → p.phone ≤ q.phone
unfolding cmp
cmp-false q p h = ground arith

insert_sorted-IsSorted :
    (p : PhoneList) (qs : List PhoneList) → IsSorted qs → IsSorted (insert_sorted p qs)
unfolding insert_sorted
insert_sorted-IsSorted p [] h = (tt, tt)
insert_sorted-IsSorted p (q ∷ qs) h = elim (Bool-cases (cmp q p)) [
  | inl t ↦ rw t (
    All-insert_sorted (λ r. q.phone ≤ r.phone) p qs (cmp-true q p t) h.0,
    insert_sorted-IsSorted p qs h.1,
  )
  | inr f ↦ rw f ((cmp-false q p f, All-le_trans p.phone q.phone qs (cmp-false q p f) h.0), h)
]

pub stable_sort-IsSorted : (ps : List PhoneList) → IsSorted (stable_sort ps)
unfolding stable_sort
stable_sort-IsSorted [] = tt
stable_sort-IsSorted (p ∷ ps) = insert_sorted-IsSorted p (stable_sort ps) (stable_sort-IsSorted ps)

-- The numbering.
pub number_from-ge :
    (i : ℕ) (ps : List PhoneList)
    → i + length ps ≤ 2 ^ 30
    → All (λ q. (i ≤ q.next) × (q.next < i + length ps)) (number_from i ps)
unfolding number_from with_next
number_from-ge i [] h = tt
number_from-ge i (p ∷ ps) h =
    (omega arith, weaken (number_from (suc i) ps) (number_from-ge (suc i) ps (omega arith)))
  where
    weaken :
        (qs : List PhoneList)
        → All (λ q. (suc i ≤ q.next) × (q.next < suc i + length ps)) qs
        → All (λ q. (i ≤ q.next) × (q.next < i + length (p ∷ ps))) qs
    weaken [] k = tt
    weaken (q ∷ qs) k = (omega arith, weaken qs k.1)

pub number_from-Distinct :
    (i : ℕ) (ps : List PhoneList) → i + length ps ≤ 2 ^ 30 → Distinct (number_from i ps)
unfolding number_from with_next
number_from-Distinct i [] h = tt
number_from-Distinct i (p ∷ ps) h = (
  differ (number_from (suc i) ps) (number_from-ge (suc i) ps (omega arith)),
  number_from-Distinct (suc i) ps (omega arith),
)
  where
    differ :
        (qs : List PhoneList)
        → All (λ q. (suc i ≤ q.next) × (q.next < suc i + length ps)) qs
        → All (λ q. q.next ≢ i % 2 ^ 30) qs
    differ [] k = tt
    differ (q ∷ qs) k = (omega arith, differ qs k.1)

-- Lower bounds.
lower_bound-unique_after :
    (v : ℕ) (p : PhoneList) (qs : List PhoneList)
    → p.phone < v
    → next_or_end (lower_bound v (unique_after p qs)) ≡ next_or_end (lower_bound v qs)
unfolding lower_bound unique_after next_or_end
lower_bound-unique_after v p [] h = refl
lower_bound-unique_after v p (q ∷ qs) h =
    ground (arith, lower_bound-unique_after v p qs, lower_bound-unique_after v q qs)

-- Dropping the repeated entries does not change where a search ends.
pub lower_bound-unique :
    (v : ℕ) (ps : List PhoneList)
    → next_or_end (lower_bound v (unique ps)) ≡ next_or_end (lower_bound v ps)
unfolding lower_bound unique next_or_end
lower_bound-unique v [] = refl
lower_bound-unique v (p ∷ ps) = ground (arith, lower_bound-unique_after v p ps)

lower_bound_of_le :
    (v w : ℕ) (ps : List PhoneList) → v ≤ w → lower_bound w (lower_bound v ps) ≡ lower_bound w ps
unfolding lower_bound
lower_bound_of_le v w [] h = refl
lower_bound_of_le v w (p ∷ ps) h = ground (arith, lower_bound_of_le v w ps)

lower_bound_of_ge :
    (v w : ℕ) (ps : List PhoneList) → w ≤ v → lower_bound w (lower_bound v ps) ≡ lower_bound v ps
unfolding lower_bound
lower_bound_of_ge v w [] h = refl
lower_bound_of_ge v w (p ∷ ps) h = ground (arith, lower_bound_of_ge v w ps)

pub lower_bound_twice :
    (v w : ℕ) (ps : List PhoneList) → lower_bound w (lower_bound v ps) ≡ lower_bound (max v w) ps
lower_bound_twice v w ps = elim (dec_le v w) [
  | yes h ↦ let e : max v w ≡ w = omega arith in rw e (lower_bound_of_le v w ps h)
  | no h ↦ let e : max v w ≡ v = omega arith in rw e (lower_bound_of_ge v w ps (omega arith))
]
