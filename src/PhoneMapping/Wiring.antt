-- ===== src/PhoneMapping/Wiring.antt =====
-- `Data::build` threads the number column: each cell points to the cell of the next index entry.
use lnr_high_performance.Base.{
  ℕ, ◌%◌, ◌^◌, ◌<◌, ◌≡◌, ◌≢◌, refl, sym, ap, ◌∙◌, some, List, [], ◌∷◌, arith, length, All,
  get_elem?, update_at, get_elem?-update_at_ne, get_elem?-update_at_self, length-update_at,
}
use lnr_high_performance.PhoneMapping.Sorting.{Distinct}
use lnr_high_performance.PhoneMapping.{PhoneList, with_next, wire, next_or_end, max_rows}

-- the cell of an index entry that nothing was written to, with its number as `f` says
abbrev pub IsUnwired : (ℕ → ℕ) → List PhoneList → PhoneList → Type 0
IsUnwired f column e = get_elem? column e.next ≡ some (record { phone = f e.next; next = max_rows })

-- the cells of the index entries form one list, in the order of the index
abbrev pub IsLinked : (ℕ → ℕ) → List PhoneList → List PhoneList → Type 0
IsLinked f column [] = Unit
IsLinked f column (e ∷ index) =
    (get_elem? column e.next ≡ some (record { phone = f e.next; next = next_or_end index }))
    × IsLinked f column index

wire_untouched :
    (j : ℕ) (index column : List PhoneList)
    → All (λ e. e.next ≢ j) index
    → get_elem? (wire index column) j ≡ get_elem? column j
unfolding wire
wire_untouched j [] column h = refl
wire_untouched j (p ∷ []) column h = refl
wire_untouched j (p ∷ q ∷ index) column h =
    wire_untouched j (q ∷ index) (update_at (with_next q.next) p.next column) h.1
    ∙ get_elem?-update_at_ne (with_next q.next) p.next j column h.0

pub length-wire : (index column : List PhoneList) → length (wire index column) ≡ length column
unfolding wire
length-wire [] column = refl
length-wire (p ∷ []) column = refl
length-wire (p ∷ q ∷ index) column =
    length-wire (q ∷ index) (update_at (with_next q.next) p.next column)
    ∙ length-update_at (with_next q.next) p.next column

IsUnwired-update_at :
    (f : ℕ → ℕ) (g : PhoneList → PhoneList) (j : ℕ) (index column : List PhoneList)
    → All (λ e. e.next ≢ j) index
    → All (IsUnwired f column) index
    → All (IsUnwired f (update_at g j column)) index
IsUnwired-update_at f g j [] column ne h = tt
IsUnwired-update_at f g j (e ∷ index) column ne h = (
  get_elem?-update_at_ne g j e.next column (λ k. ne.0 (sym k)) ∙ h.0,
  IsUnwired-update_at f g j index column ne.1 h.1,
)

-- Wiring an index with distinct places leaves one list of cells in the order of the index.
pub wire-IsLinked :
    (f : ℕ → ℕ) (index column : List PhoneList)
    → Distinct index
    → All (λ e. e.next < 2 ^ 30) index
    → All (IsUnwired f column) index
    → IsLinked f (wire index column) index
unfolding wire next_or_end with_next
wire-IsLinked f [] column d b u = tt
wire-IsLinked f (p ∷ []) column d b u = (u.0, tt)
wire-IsLinked f (p ∷ q ∷ index) column d b u =
    let column' = update_at (with_next q.next) p.next column in
    let fits : q.next % 2 ^ 30 ≡ q.next = omega arith in
    (
      wire_untouched p.next (q ∷ index) column' d.0
          ∙ get_elem?-update_at_self (with_next q.next) p.next column u.0
          ∙ ap (λ n. some (record { phone = f p.next; next = n })) fits,
      wire-IsLinked f (q ∷ index) column' d.1 b.1
          (IsUnwired-update_at f (with_next q.next) p.next (q ∷ index) column d.0 u.1),
    )
