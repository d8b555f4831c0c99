-- ===== src/PhoneMapping/Rows.antt =====
-- What a mapping means: the list of its rows in insertion order, each a portability number with
-- its routing number.
use lnr_high_performance.Base.{
  ℕ, ◌+◌, ◌≤◌, ◌<◌, ◌^◌, ◌&&◌, ◌≡◌, refl, Option, none, some, List, [], ◌∷◌, ◌++◌, arith, ltb, leb,
  ◌==◌, if◌then◌else◌, length, duplicate_key, too_much_rows, Result, ok, err, is_some,
}
use lnr_high_performance.PhoneMapping.{none_number, max_rows}

abbrev pub Row : Type 0
Row = ℕ × ℕ

unfoldable pub find_row : ℕ → List Row → Option ℕ
find_row k [] = none
find_row k (r ∷ rows) = if r.0 == k then some r.1 else find_row k rows

abbrev pub or_none : Option ℕ → ℕ
or_none none = none_number
or_none (some n) = n

-- what a lookup answers
unfoldable pub route : List Row → ℕ → ℕ
route rows k = or_none (find_row k rows)

-- the routing number of a number: that of the US, and else the Canadian one
unfoldable pub first_route : List Row → List Row → ℕ → ℕ
first_route us ca pn = if route us pn == none_number then route ca pn else route us pn

-- the specification of `addRow`
unfoldable pub push_row : List Row → Row → Result (List Row)
push_row rows r =
    if is_some (find_row r.0 rows)
    then err duplicate_key
    else if leb max_rows (length rows)
    then err too_much_rows
    else ok (rows ++ r ∷ [])

-- both numbers fit the bit fields of a packed pair
abbrev pub Fits : Row → Type 0
Fits r = (r.0 < 2 ^ 34) × (r.1 < 2 ^ 34)

-- no portability number stands twice
abbrev pub IsKeyed : List Row → Type 0
IsKeyed [] = Unit
IsKeyed (r ∷ rows) = (find_row r.0 rows ≡ none) × IsKeyed rows

-- the rows by ascending routing number, equal ones in insertion order
unfoldable pub insert_by_rn : Row → List Row → List Row
insert_by_rn r [] = r ∷ []
insert_by_rn r (q ∷ rows) = if ltb q.1 r.1 then q ∷ insert_by_rn r rows else r ∷ q ∷ rows

unfoldable pub sort_by_rn : List Row → List Row
sort_by_rn [] = []
sort_by_rn (r ∷ rows) = insert_by_rn r (sort_by_rn rows)

-- the rows with a routing number in a half-open range
unfoldable pub select : ℕ → ℕ → List Row → List Row
select from to [] = []
select from to (r ∷ rows) =
    let rest = select from to rows in if leb from r.1 && ltb r.1 to then r ∷ rest else rest

pub find_row-append :
    (k : ℕ) (rows : List Row) (r : Row)
    → find_row k (rows ++ r ∷ [])
      ≡ (if is_some (find_row k rows) then find_row k rows else find_row k (r ∷ []))
unfolding find_row
find_row-append k [] r = refl
find_row-append k (q ∷ rows) r = ground (arith, find_row-append k rows r)

pub IsKeyed-append :
    (rows : List Row) (r : Row) → IsKeyed rows → find_row r.0 rows ≡ none → IsKeyed (rows ++ r ∷ [])
IsKeyed-append [] r h absent = (unfold find_row in refl, tt)
IsKeyed-append (q ∷ rows) r h absent = (
  rw (find_row-append, h.0) (unfold find_row in ground arith),
  IsKeyed-append rows r h.1 (unfold find_row in ground arith),
)

length-insert_by_rn : (r : Row) (rows : List Row) → length (insert_by_rn r rows) ≡ length rows + 1
unfolding insert_by_rn
length-insert_by_rn r [] = omega arith
length-insert_by_rn r (q ∷ rows) = ground (arith, length-insert_by_rn r rows)

pub length-sort_by_rn : (rows : List Row) → length (sort_by_rn rows) ≡ length rows
unfolding sort_by_rn
length-sort_by_rn [] = refl
length-sort_by_rn (r ∷ rows) =
    omega (arith, length-insert_by_rn r (sort_by_rn rows), length-sort_by_rn rows)

pub length-select-le : (from to : ℕ) (rows : List Row) → length (select from to rows) ≤ length rows
unfolding select
length-select-le from to [] = omega arith
length-select-le from to (r ∷ rows) = ground (arith, length-select-le from to rows)
