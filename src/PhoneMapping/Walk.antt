-- ===== src/PhoneMapping/Walk.antt =====
-- Walks along a linked column, between two lower bounds of the sorted index.
use lnr_high_performance.Base.{
  ℕ, ◌≤◌, ◌<◌, ◌≡◌, ◌≢◌, refl, sym, ◌∙◌, List, [], ◌∷◌, ◌++◌, map, arith, ltb, if◌then◌else◌, All,
  All-of_append, All-mono, Bool-cases, inl, inr,
}
use lnr_high_performance.PhoneMapping.Cursors.{Pending}
use lnr_high_performance.PhoneMapping.Order.{entry_row, select_none}
use lnr_high_performance.PhoneMapping.Rows.{select}
use lnr_high_performance.PhoneMapping.Sorting.{Distinct, IsSorted}
use lnr_high_performance.PhoneMapping.Wiring.{IsLinked}
use lnr_high_performance.PhoneMapping.{PhoneList, max_rows, inverse_rn, lower_bound, next_or_end}

-- the entries below a bound, in front of those that `lower_bound` leaves
pub below : ℕ → List PhoneList → List PhoneList
below v [] = []
below v (p ∷ ps) = if ltb p.phone v then p ∷ below v ps else []

pub below-append-lower_bound : (v : ℕ) (ps : List PhoneList) → below v ps ++ lower_bound v ps ≡ ps
unfolding below lower_bound
below-append-lower_bound v [] = refl
below-append-lower_bound v (p ∷ ps) = ground (arith, below-append-lower_bound v ps)

pub Distinct-of_append : (ps qs : List PhoneList) → Distinct (ps ++ qs) → Distinct qs
Distinct-of_append [] qs h = h
Distinct-of_append (p ∷ ps) qs h = Distinct-of_append ps qs h.1

pub IsLinked-of_append :
    (f : ℕ → ℕ) (column ps qs : List PhoneList)
    → IsLinked f column (ps ++ qs)
    → IsLinked f column qs
IsLinked-of_append f column [] qs h = h
IsLinked-of_append f column (p ∷ ps) qs h = IsLinked-of_append f column ps qs h.1

-- the end of a walk is the place of no entry before it
next-ne-end :
    (e : PhoneList) (ps qs : List PhoneList)
    → e.next < max_rows
    → All (λ q. q.next ≢ e.next) (ps ++ qs)
    → e.next ≢ next_or_end qs
unfolding next_or_end
next-ne-end e ps [] h d k = omega arith
next-ne-end e ps (q ∷ qs) h d k = (All-of_append _ ps (q ∷ qs) d).1.0 (sym k)

-- From a linked column the walk between two entries meets those from the first on, before the
-- second.
pub walk-Pending :
    (f : ℕ → ℕ) (column mid post : List PhoneList)
    → IsLinked f column (mid ++ post)
    → Distinct (mid ++ post)
    → All (λ e. e.next < max_rows) (mid ++ post)
    → Pending column
        (inverse_rn (next_or_end (mid ++ post)) (next_or_end post))
        (map (λ (e : PhoneList). f e.next) mid)
unfolding next_or_end
walk-Pending f column [] post l d b = refl
walk-Pending f column (e ∷ mid) post l d b = (
  unfold next_or_end in next-ne-end e mid post b.0 d.0,
  record { phone = f e.next; next = next_or_end (mid ++ post) },
  l.0,
  refl,
  walk-Pending f column mid post l.1 d.1 b.1,
)

module _ (f : ℕ → ℕ) (from to : ℕ) where
  below-select :
      (ps : List PhoneList)
      → IsSorted ps
      → All (λ q. from ≤ q.phone) ps
      → map (entry_row f) (below to ps) ≡ select from to (map (entry_row f) ps)
  unfolding below select
  below-select [] s h = refl
  below-select (p ∷ ps) s h = elim (Bool-cases (ltb p.phone to)) [
    | inl t ↦ rw (t, below-select ps s.1 h.1) (ground arith)
    | inr n ↦
        let none_left =
          select_none f from to ps
            (All-mono (λ q. p.phone ≤ q.phone) _ ps (λ q k. ground arith) s.0) in
        rw (n, none_left) (ground arith)
  ]

  -- In a sorted index the entries between two lower bounds are those in the range.
  pub range-select :
      (ps : List PhoneList)
      → IsSorted ps
      → map (entry_row f) (below to (lower_bound from ps)) ≡ select from to (map (entry_row f) ps)
  unfolding lower_bound
  range-select [] s = unfold below select in refl
  range-select (p ∷ ps) s = elim (Bool-cases (ltb p.phone from)) [
    | inl t ↦ rw t (range-select ps s.1 ∙ unfold select in ground arith)
    | inr n ↦ rw n (
        below-select (p ∷ ps) s
          (ground arith, All-mono (λ q. p.phone ≤ q.phone) _ ps (λ q k. ground arith) s.0))
  ]
