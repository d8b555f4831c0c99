-- ===== src/PhoneMapping/Visit.antt =====
-- `build`, then `visitRows` and the loop of a client: all the rows in insertion order.
use lnr_high_performance.Base.{
  ℕ, suc, zero, ◌%◌, ◌^◌, ◌≤◌, ◌<◌, ◌≡◌, refl, sym, ap, ◌∙◌, some, List, [], ◌∷◌, map, arith,
  length, get_elem?, drop, update_at, done, ◌>>=◌, All, All-zip, length-map, map-eq_of_All, map-map,
}
use lnr_high_performance.PhoneMapping.Builder.{Holds, pn_cell}
use lnr_high_performance.PhoneMapping.Cursors.{Pending, rn_of, drain, drain-Left, open_rows}
use lnr_high_performance.PhoneMapping.Order.{find_row_self}
use lnr_high_performance.PhoneMapping.Rows.{Row, Fits, IsKeyed, or_none, find_row, route}
use lnr_high_performance.PhoneMapping.{
  Data, PhoneList, phone_list, row, with_next, wire, build, visit_rows, size, number_from,
  stable_sort,
}
use lnr_high_performance.Vendor.{Folly}
use native.Mathlib.Numerals.{add-one}

phones : List PhoneList → List ℕ
phones = map (λ (c : PhoneList). c.phone)

-- wiring writes no number
phones-wire : (index column : List PhoneList) → phones (wire index column) ≡ phones column
unfolding wire phones
phones-wire [] column = refl
phones-wire (p ∷ []) column = refl
phones-wire (p ∷ q ∷ index) column =
    phones-wire (q ∷ index) (update_at (with_next q.next) p.next column) ∙ kept p.next column
  where
    kept :
        (i : ℕ) (cs : List PhoneList)
        → map (λ (c : PhoneList). c.phone) (update_at (with_next q.next) i cs)
          ≡ map (λ (c : PhoneList). c.phone) cs
    kept i [] = refl
    kept zero (c ∷ cs) = unfold with_next in refl
    kept (suc i) (c ∷ cs) = ap (◌∷◌ c.phone) (kept i cs)

drop_step :
    (i : ℕ) (column : List PhoneList) (c : PhoneList) (cells : List PhoneList)
    → drop i column ≡ c ∷ cells
    → (get_elem? column i ≡ some c) × (drop (suc i) column ≡ cells) × (i < length column)
drop_step zero [] c cells h = absurd (cc)
drop_step zero (x ∷ column) c cells h = (cc, cc, omega arith)
drop_step (suc i) [] c cells h = absurd (cc)
drop_step (suc i) (x ∷ column) c cells h =
    let (a, b, k) = drop_step i column c cells h in (a, b, omega arith)

drop_none :
    (i : ℕ) (column : List PhoneList) → i ≤ length column → drop i column ≡ [] → i ≡ length column
drop_none zero [] h e = refl
drop_none zero (x ∷ column) h e = cc
drop_none (suc i) [] h e = absurd (omega arith)
drop_none (suc i) (x ∷ column) h e = ap suc (drop_none i column (omega arith) e)

rows-Pending :
    (cells column : List PhoneList) (i : ℕ)
    → i ≤ length column
    → drop i column ≡ cells
    → Pending column (row i (length column)) (phones cells)
unfolding phones
rows-Pending [] column i h e = drop_none i column h e
rows-Pending (c ∷ cells) column i h e =
    let (here, behind, inside) = drop_step i column c cells e in
    (omega arith, c, here, refl, rw add-one (rows-Pending cells column (suc i) inside behind))

-- what a row reads as in the packed column: its number cut to 34 bits, with the routing number
-- that the cut number has
abbrev pub cut_row : List Row → Row → Row
cut_row rows r = (r.0 % 2 ^ 34, route rows (r.0 % 2 ^ 34))

module _ (F : Folly ℕ) {rows : List Row} {d : Data F} (h : Holds F rows d) where
  phones-built : phones (build F d).pn_column ≡ map (λ (r : Row). r.0 % 2 ^ 34) rows
  unfolding build phones phone_list
  phones-built =
      phones-wire (stable_sort (number_from 0 d.rn_index)) d.pn_column
      ∙ ap phones h.column
      ∙ map-map (λ (c : PhoneList). c.phone) pn_cell rows

  seen-cut :
      map {B = Row} (λ x. (x, rn_of F (build F d) x)) (map (λ (r : Row). r.0 % 2 ^ 34) rows)
      ≡ map (cut_row rows) rows
  unfolding build route
  seen-cut = map-map _ _ rows ∙ go rows
    where
      go :
          (qs : List Row)
          → map {B = Row} (λ (r : Row). (r.0 % 2 ^ 34, or_none (F.find (r.0 % 2 ^ 34) d.dict))) qs
            ≡ map {B = Row} (λ (r : Row). (r.0 % 2 ^ 34, or_none (find_row (r.0 % 2 ^ 34) rows))) qs
      go [] = refl
      go (q ∷ qs) = rw (h.reads (q.0 % 2 ^ 34), go qs)

  -- After `build` the size is the number of rows, and `visitRows` with the client's loop sees one
  -- row for each in insertion order: its number cut to 34 bits, and what is stored for that.
  pub visit_rows-cut :
      (prefetch fuel : ℕ)
      → 0 < prefetch
      → length rows < fuel
      → (size (build F d) ≡ length rows)
        × ((visit_rows F prefetch (build F d) >>= drain F prefetch fuel)
            ≡ done (map (cut_row rows) rows))
  unfolding visit_rows size phones
  visit_rows-cut prefetch fuel pos enough =
      let column = (build F d).pn_column in
      let pending = rows-Pending column column 0 (omega arith) refl in
      let (o, run, left) = open_rows F prefetch pos (build F d) (length column) _ pending in
      let seen = ap (map (λ x. (x, rn_of F (build F d) x))) phones-built ∙ seen-cut in
      let count : length (phones column) ≡ length rows =
        ap length phones-built ∙ length-map (λ (r : Row). r.0 % 2 ^ 34) rows in
      (
        sym (length-map (λ (c : PhoneList). c.phone) column) ∙ count,
        rw run
            (drain-Left F prefetch pos (build F d) _ o fuel left (rw count enough) ∙ ap done seen),
      )

map_same : (qs : List Row) → map (λ r. r) qs ≡ qs
map_same [] = refl
map_same (q ∷ qs) = ap (◌∷◌ q) (map_same qs)

cut_row-same :
    (rows : List Row) (r : Row) → Fits r → find_row r.0 rows ≡ some r.1 → cut_row rows r ≡ r
unfolding route
cut_row-same rows r fits found =
    let whole : r.0 % 2 ^ 34 ≡ r.0 = omega (arith, fits.0) in rw (whole, found)

pub cut_row-rows : (rows : List Row) → IsKeyed rows → All Fits rows → map (cut_row rows) rows ≡ rows
cut_row-rows rows keyed fits =
    map-eq_of_All (cut_row rows) (λ r. r) rows
      (All-zip Fits _ _ rows (cut_row-same rows) fits (find_row_self rows keyed))
    ∙ map_same rows

module _ (F : Folly ℕ) {rows : List Row} {d : Data F} (h : Holds F rows d)
    (fits : All Fits rows) where
  -- Where all numbers fit 34 bits, `visitRows` with the client's loop sees exactly the rows, in
  -- insertion order.
  pub visit_rows-rows :
      (prefetch fuel : ℕ)
      → 0 < prefetch
      → length rows < fuel
      → (visit_rows F prefetch (build F d) >>= drain F prefetch fuel) ≡ done rows
  visit_rows-rows prefetch fuel pos enough =
      (visit_rows-cut F h prefetch fuel pos enough).1 ∙ ap done (cut_row-rows rows h.keyed fits)
