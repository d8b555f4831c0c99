-- ===== src/PhoneMapping/Inverse.antt =====
-- `build`, then `inverseRNs` or `visitRows`, then the loop of a client: the rows that it sees.
use lnr_high_performance.Base.{
  ℕ, ◌%◌, ◌^◌, ◌≤◌, ◌<◌, ◌≡◌, sym, ap, ◌∙◌, subst, Option, some, List, ◌++◌, map, arith, length,
  get_elem?, done, ◌>>=◌, All, All-of_append, All-of_map, All-mono, map-eq_of_All, map-map,
  length-map,
}
use lnr_high_performance.PhoneMapping.Builder.{Holds, pn_cell, rn_cell}
use lnr_high_performance.PhoneMapping.Cursors.{
  Pending, Left, rn_of, drain, drain-Left, open_inverse,
}
use lnr_high_performance.PhoneMapping.Rows.{
  Row, Fits, find_row, sort_by_rn, select, length-select-le, length-sort_by_rn,
}
use lnr_high_performance.PhoneMapping.Order.{
  entry_row, phone_of, stable_sort-rows, number_from-rows, number_from-IsIncreasing,
  column-IsAligned, column-IsUnwired, find_row_self,
}
use lnr_high_performance.PhoneMapping.Sorting.{
  Distinct, All-stable_sort, stable_sort-Distinct, stable_sort-IsSorted, number_from-ge,
  number_from-Distinct, lower_bound-unique, lower_bound_twice,
}
use lnr_high_performance.PhoneMapping.Walk.{
  below, below-append-lower_bound, Distinct-of_append, IsLinked-of_append, walk-Pending,
  range-select,
}
use lnr_high_performance.PhoneMapping.Wiring.{IsUnwired, IsLinked, wire-IsLinked}
use lnr_high_performance.PhoneMapping.{
  Data, PhoneList, max_rows, Cursor, inverse_rn, number_from, stable_sort, unique, wire,
  lower_bound, next_or_end, build, inverse_rns,
}
use lnr_high_performance.Vendor.{Folly}

module _ (F : Folly ℕ) {rows : List Row} {d : Data F} (h : Holds F rows d)
    (fits : All Fits rows) where
  f : ℕ → ℕ
  f = phone_of (map pn_cell rows)

  numbered : List PhoneList
  numbered = number_from 0 (map rn_cell rows)

  index : List PhoneList
  index = stable_sort numbered

  small : length (map rn_cell rows) ≤ max_rows
  small = rw length-map h.few

  index-Distinct : Distinct index
  unfolding index numbered
  index-Distinct = stable_sort-Distinct _ (number_from-Distinct 0 _ (omega (arith, small)))

  index-in_range : All (λ e. e.next < length rows) index
  unfolding index numbered
  index-in_range = All-stable_sort _ _ (
      All-mono _ _ _ (λ e k. omega (arith, length-map rn_cell rows))
        (number_from-ge 0 (map rn_cell rows) (omega (arith, small))))

  numbered-rows : map (entry_row f) numbered ≡ rows
  unfolding numbered f
  numbered-rows =
      number_from-rows (phone_of (map pn_cell rows)) 0 rows (omega (arith, h.few)) fits
        (column-IsAligned rows fits)

  index-rows : map (entry_row f) index ≡ sort_by_rn rows
  unfolding index
  index-rows =
      stable_sort-rows f numbered
        (unfold numbered in number_from-IsIncreasing 0 _ (omega (arith, small)))
      ∙ ap sort_by_rn numbered-rows

  -- each entry's number is routed to the entry's routing number
  index-routed : All (λ e. rn_of F d (f e.next) ≡ e.phone) index
  unfolding index
  index-routed = All-stable_sort _ numbered (
      All-mono _ _ numbered (λ e k. rw (h.reads (f e.next), k))
        (All-of_map (λ (r : Row). find_row r.0 rows ≡ some r.1) (entry_row f) numbered
          (rw numbered-rows (find_row_self rows h.keyed))))

  unwired : (e : PhoneList) → e.next < length rows → IsUnwired f d.pn_column e
  unfolding f
  unwired e k =
      subst
        (λ c.
          get_elem? c e.next
          ≡ some (record { phone = phone_of (map pn_cell rows) e.next; next = max_rows }))
        (sym h.column) (column-IsUnwired rows e.next k)

  index-IsLinked : IsLinked f (wire index d.pn_column) index
  index-IsLinked =
      wire-IsLinked f index d.pn_column index-Distinct
        (All-mono _ _ index (λ e k. omega (arith, h.few)) index-in_range)
        (All-mono _ _ index unwired index-in_range)

  left : ℕ → List PhoneList
  left from = lower_bound from index

  mid : ℕ → ℕ → List PhoneList
  mid from to = below to (left from)

  post : ℕ → ℕ → List PhoneList
  post from to = lower_bound to (left from)

  mid-append-post : (from to : ℕ) → mid from to ++ post from to ≡ left from
  unfolding mid post
  mid-append-post from to = below-append-lower_bound to (left from)

  walk :
      (from to : ℕ)
      → Pending
          (wire index d.pn_column)
          (inverse_rn (next_or_end (left from)) (next_or_end (post from to)))
          (map (λ (e : PhoneList). f e.next) (mid from to))
  unfolding left
  walk from to =
      let split = below-append-lower_bound from index in
      let linked =
        IsLinked-of_append f (wire index d.pn_column) (below from index) (left from)
          (rw split index-IsLinked) in
      let distinct = Distinct-of_append (below from index) (left from) (rw split index-Distinct) in
      let bounded =
        (All-of_append (λ e. e.next < length rows) (below from index) (left from)
          (rw split index-in_range)).1 in
      let column = wire index d.pn_column in
      let both = mid-append-post from to in
      subst
        (λ l.
          Pending column (inverse_rn (next_or_end l) (next_or_end (post from to)))
            (map (λ (e : PhoneList). f e.next) (mid from to)))
        both
        (walk-Pending f column (mid from to) (post from to) (rw both linked) (rw both distinct)
          (rw both (All-mono _ _ (left from) (λ e k. omega (arith, h.few)) bounded)))

  begin_lem : (from : ℕ) → next_or_end (lower_bound from (unique index)) ≡ next_or_end (left from)
  unfolding left
  begin_lem from = lower_bound-unique from index

  end_lem :
      (from to : ℕ)
      → next_or_end (lower_bound to (lower_bound from (unique index))) ≡ next_or_end (post from to)
  unfolding left post
  end_lem from to = rw (lower_bound_twice, lower_bound-unique, ← lower_bound_twice from to index)

  routed-mid :
      (from to : ℕ)
      → map (λ x. (x, rn_of F d x)) (map (λ (e : PhoneList). f e.next) (mid from to))
        ≡ select from to (sort_by_rn rows)
  unfolding mid left
  routed-mid from to =
      let split = below-append-lower_bound from index in
      let routed-left =
        (All-of_append (λ e. rn_of F d (f e.next) ≡ e.phone) (below from index)
          (lower_bound from index) (rw split index-routed)).1 in
      let routed =
        (All-of_append (λ e. rn_of F d (f e.next) ≡ e.phone) (below to (lower_bound from index))
          (lower_bound to (lower_bound from index)) (rw below-append-lower_bound routed-left)).0 in
      map-map _ _ (below to (lower_bound from index))
      ∙ map-eq_of_All _ (entry_row f) _ (All-mono _ _ _ (λ e k. ap (λ n. (f e.next, n)) k) routed)
      ∙ range-select f from to index (unfold index in stable_sort-IsSorted numbered)
      ∙ ap (select from to) index-rows

  built : Data F
  built = record d { pn_column = wire index d.pn_column; rn_index = unique index }

  build-built : build F d ≡ built
  unfolding build built index numbered
  build-built = rw h.index

module _ (F : Folly ℕ) (prefetch : ℕ) (pos : 0 < prefetch) {rows : List Row} {d : Data F}
    (h : Holds F rows d) (fits : All Fits rows) where
  start :
      (from to : ℕ)
      → from < 2 ^ 34
      → to < 2 ^ 34
      → (o : Option Cursor) × (inverse_rns F prefetch from to (built F h fits)
          ≡ done (record { content = built F h fits; cursor = o }))
        × Left F
            (built F h fits)
            o
            (map (λ (e : PhoneList). f F h fits e.next) (mid F h fits from to))
  unfolding inverse_rns built
  start from to small_from small_to =
      let exact_from : from % 2 ^ 34 ≡ from = omega arith in
      let exact_to : to % 2 ^ 34 ≡ to = omega arith in
      rw (exact_from, exact_to, begin_lem F h fits from, end_lem F h fits from to)
        (open_inverse F prefetch pos (built F h fits) (next_or_end (left F h fits from))
          (next_or_end (post F h fits from to)) _ (walk F h fits from to))

  -- After `build`, `inverseRNs(from, to)` and the client's loop see exactly the rows whose routing
  -- number lies in [from, to), by ascending routing number, equal ones in insertion order; no
  -- read leaves the column and no loop runs on.
  pub inverse_rns-select :
      (from to fuel : ℕ)
      → from < 2 ^ 34
      → to < 2 ^ 34
      → length rows < fuel
      → (inverse_rns F prefetch from to (build F d) >>= drain F prefetch fuel)
        ≡ done (select from to (sort_by_rn rows))
  inverse_rns-select from to fuel small_from small_to enough =
      let (o, run, left) = start from to small_from small_to in
      let seen = routed-mid F h fits from to in
      let xs = map (λ (e : PhoneList). f F h fits e.next) (mid F h fits from to) in
      let short : length xs < fuel = omega (
        arith,
        length-map {B = Row} (λ x. (x, rn_of F d x)) xs,
        ap length seen,
        length-select-le from to (sort_by_rn rows),
        length-sort_by_rn rows,
      ) in
      rw (build-built F h fits, run)
        (drain-Left F prefetch pos (built F h fits) xs o fuel left short
          ∙ ap done (unfold built in seen))
