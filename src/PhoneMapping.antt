-- ===== src/PhoneMapping.antt =====
-- callfwd/PhoneMapping.cpp: the mapping from portability numbers to routing numbers, its builder
-- and its cursors. `F` is the hash map, `prefetch` the flag `f14map_prefetch`.
pub mod Rows
pub mod Lookup
pub mod Builder
pub mod Sorting
pub mod Wiring
pub mod Order
pub mod Cursors
pub mod Walk
pub mod Inverse
pub mod Visit
pub mod Lines
pub mod Files
pub mod Answers
use lnr_high_performance.Base.{
  ℕ, zero, suc, ◌+◌, ◌-◌, ◌%◌, ◌^◌, Bool, true, false, Option, none, some, List, [], ◌∷◌, ◌++◌, map,
  ltb, leb, ◌==◌, if◌then◌else◌, is_some, length, get_elem?, get_or, update_at, Bytes,
  duplicate_key, too_much_rows, bad_columns, bad_conversion, Result, ok, err, Run, done, fault,
  ◌>>=◌,
}
use lnr_high_performance.Batch.{batch}
use lnr_high_performance.Vendor.{Folly, FollyText}

-- `PhoneNumber::NONE`
abbrev pub none_number : ℕ
none_number = 2 ^ 64 - 1

-- a packed pair of bit fields, `phone : 34` and `next : 30`
pub record PhoneList : Type 0 where
  pub phone : ℕ
  pub next : ℕ

abbrev pub max_rows : ℕ
max_rows = 2 ^ 30 - 1

-- `PhoneList{phone, next}`: each field keeps its low bits
unfoldable pub phone_list : ℕ → ℕ → PhoneList
phone_list phone next = record { phone = phone % 2 ^ 34; next = next % 2 ^ 30 }

-- `p.next = n`
unfoldable pub with_next : ℕ → PhoneList → PhoneList
with_next n p = record p { next = n % 2 ^ 30 }

pub record Data (F : Folly ℕ) : Type 0 where
  pub meta : F.Dynamic
  pub dict : F.Map
  pub pn_column : List PhoneList
  pub rn_index : List PhoneList

-- what `refill` walks: the list of one routing number after another, or the rows in order
pub data Visitor : Type 0 where
  inverse_rn : ℕ → ℕ → Visitor
  row : ℕ → ℕ → Visitor

-- `pn_` and `rn_` hold the filled part of the arrays, so `size_` is their length
pub record Cursor : Type 0 where
  pub visitor : Visitor
  pub pn : List ℕ
  pub rn : List ℕ
  pub pos : ℕ

pub record PhoneMapping (F : Folly ℕ) : Type 0 where
  pub content : Data F
  pub cursor : Option Cursor

-- The builder.
module _ (F : Folly ℕ) where
  unfoldable pub new_data : Data F
  new_data = record { meta = F.null_dynamic; dict = F.empty; pn_column = []; rn_index = [] }

  unfoldable pub set_metadata : F.Dynamic → Data F → Data F
  set_metadata m d = record d { meta = m }

  unfoldable pub add_row : Data F → ℕ → ℕ → Result (Data F)
  add_row d pn rn =
      if is_some (F.find pn d.dict)
      then err duplicate_key
      else if leb max_rows (length d.pn_column)
      then err too_much_rows
      else ok (record d {
        dict = F.emplace pn rn d.dict;
        pn_column = d.pn_column ++ phone_list pn max_rows ∷ [];
        rn_index = d.rn_index ++ phone_list rn max_rows ∷ [];
      })

-- `for (i = 0; i < N; ++i) rnIndex[i].next = i`
unfoldable pub number_from : ℕ → List PhoneList → List PhoneList
number_from i [] = []
number_from i (p ∷ ps) = with_next i p ∷ number_from (suc i) ps

-- the comparison of the sort
unfoldable pub cmp : PhoneList → PhoneList → Bool
cmp lhs rhs = if lhs.phone == rhs.phone then ltb lhs.next rhs.next else ltb lhs.phone rhs.phone

-- `std::stable_sort`: an element goes behind those that it does not precede
unfoldable pub insert_sorted : PhoneList → List PhoneList → List PhoneList
insert_sorted p [] = p ∷ []
insert_sorted p (q ∷ qs) = if cmp q p then q ∷ insert_sorted p qs else p ∷ q ∷ qs

unfoldable pub stable_sort : List PhoneList → List PhoneList
stable_sort [] = []
stable_sort (p ∷ ps) = insert_sorted p (stable_sort ps)

-- `for (i = 0; i + 1 < N; ++i) pnColumn[rnIndex[i].next].next = rnIndex[i+1].next`
unfoldable pub wire : List PhoneList → List PhoneList → List PhoneList
wire [] column = column
wire (p ∷ []) column = column
wire (p ∷ q ∷ index) column = wire (q ∷ index) (update_at (with_next q.next) p.next column)

-- `std::unique` by `phone`: the first of each run stays
unfoldable pub unique_after : PhoneList → List PhoneList → List PhoneList
unique_after p [] = []
unique_after p (q ∷ qs) = if p.phone == q.phone then unique_after p qs else q ∷ unique_after q qs

unfoldable pub unique : List PhoneList → List PhoneList
unique [] = []
unique (p ∷ ps) = p ∷ unique_after p ps

-- `std::lower_bound` in a sorted range: the rest of the range from the first element not below
unfoldable pub lower_bound : ℕ → List PhoneList → List PhoneList
lower_bound v [] = []
lower_bound v (p ∷ ps) = if ltb p.phone v then lower_bound v ps else p ∷ ps

-- `it == end ? MAXROWS : it->next`
unfoldable pub next_or_end : List PhoneList → ℕ
next_or_end [] = max_rows
next_or_end (p ∷ ps) = p.next

-- both `refill` loops; `room` counts the free places of `pn_`
unfoldable pub refill : ℕ → List PhoneList → Visitor → Run (List ℕ × Visitor)
refill zero column v = done ([], v)
refill (suc room) column (inverse_rn it end) = elim (it == end) [
  | true ↦ done ([], inverse_rn it end)
  | false ↦ elim (get_elem? column it) [
    | none ↦ fault
    | some p ↦ refill room column (inverse_rn p.next end) >>= λ (r : List ℕ × Visitor).
        done (p.phone ∷ r.0, r.1)
  ]
]
refill (suc room) column (row it end) = elim (it == end) [
  | true ↦ done ([], row it end)
  | false ↦ elim (get_elem? column it) [
    | none ↦ fault
    | some p ↦ refill room column (row (it + 1) end) >>= λ (r : List ℕ × Visitor).
        done (p.phone ∷ r.0, r.1)
  ]
]

module _ (F : Folly ℕ) where
  -- `Data::build`
  unfoldable pub build : Data F → Data F
  build d =
      let index = stable_sort (number_from 0 d.rn_index) in
      record d { pn_column = wire index d.pn_column; rn_index = unique index }

module _ (F : Folly ℕ) (prefetch : ℕ) where
  -- the two inner loops of `getRNs`: prehash every key of the batch, then find each
  unfoldable pub fill_rns : F.Map → List F.Token → List ℕ → List ℕ
  fill_rns dict [] pns = []
  fill_rns dict (t ∷ ts) [] = []
  fill_rns dict (t ∷ ts) (pn ∷ pns) =
      elim (F.find_token t pn dict) [ some rn ↦ rn | none ↦ none_number ] ∷ fill_rns dict ts pns

  unfoldable pub get_rns : Data F → List ℕ → Run (List ℕ)
  get_rns d pns = batch (λ pn. fill_rns d.dict (map F.prehash pn) pn) prefetch (length pns) pns

  -- `getRN`: a batch of one key
  unfoldable pub get_rn : Data F → ℕ → Run ℕ
  get_rn d pn = get_rns d (pn ∷ []) >>= λ rns. done (get_or rns 0 0)

  -- `Cursor::prefetch`
  unfoldable pub fetch : Data F → Visitor → Run Cursor
  fetch d v = refill 8 d.pn_column v >>= λ (r : List ℕ × Visitor).
      get_rns d r.0 >>= λ rns. done (record { visitor = r.1; pn = r.0; rn = rns; pos = 0 })

  -- `Data::inverseRNs` and the assignment to `cursor_`
  unfoldable pub inverse_rns : ℕ → ℕ → Data F → Run (PhoneMapping F)
  inverse_rns from to d =
      let left = lower_bound (from % 2 ^ 34) d.rn_index in
      let right = lower_bound (to % 2 ^ 34) left in
      let begin = next_or_end left in
      let end = next_or_end right in
      if begin == end
      then done (record { content = d; cursor = none })
      else (fetch d (inverse_rn begin end) >>= λ (c : Cursor).
          done (record { content = d; cursor = some c }))

  unfoldable pub visit_rows : Data F → Run (PhoneMapping F)
  visit_rows d =
      if ltb 0 (length d.pn_column)
      then (fetch d (row 0 (length d.pn_column)) >>= λ (c : Cursor).
          done (record { content = d; cursor = some c }))
      else done (record { content = d; cursor = none })

  -- `Cursor::advance`
  unfoldable pub advance_cursor : Data F → Cursor → Run Cursor
  advance_cursor d c =
      if c.pos + 1 == length c.pn then fetch d c.visitor else done (record c { pos = c.pos + 1 })

  -- `PhoneMapping::advance`: a cursor with no row left is dropped
  unfoldable pub advance : PhoneMapping F → Run (PhoneMapping F)
  advance m = elim m.cursor [
    | none ↦ fault
    | some c ↦ advance_cursor m.content c >>= λ (c' : Cursor).
        done (record m { cursor = if length c'.pn == 0 then none else some c' })
  ]

unfoldable pub has_row : {F : Folly ℕ} → PhoneMapping F → Bool
has_row m = is_some m.cursor

unfoldable pub current_pn : Cursor → ℕ
current_pn c = get_or c.pn c.pos 0

unfoldable pub current_rn : Cursor → ℕ
current_rn c = get_or c.rn c.pos 0

unfoldable pub size : {F : Folly ℕ} → Data F → ℕ
size d = length d.pn_column
