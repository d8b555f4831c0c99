-- ===== src/PhoneMapping/Cursors.antt =====
-- A cursor hands out, in pages of eight, exactly the numbers that its visitor has before it.
use lnr_high_performance.Base.{
  ℕ, suc, zero, ◌+◌, ◌≤◌, ◌<◌, ◌≡◌, ◌≢◌, refl, sym, ap, ◌∙◌, Option, none, some, List, [], ◌∷◌,
  ◌++◌, map, arith, length, get_elem?, get_or, take, drop, take-append-drop, ◌==◌, ne→==_false, Run,
  done, no_fuel, ◌>>=◌, Bool-cases, inl, inr, ==_iff, if◌then◌else◌, ltb, lt→ltb,
}
use native.Mathlib.Numerals.{add-one}
use lnr_high_performance.PhoneMapping.Lookup.{get_rns-find}
use lnr_high_performance.PhoneMapping.Rows.{or_none}
use lnr_high_performance.PhoneMapping.{
  Data, PhoneList, Visitor, inverse_rn, row, Cursor, PhoneMapping, refill, fetch, advance_cursor,
  advance, current_pn, current_rn,
}
use lnr_high_performance.Vendor.{Folly}

-- the numbers that a visitor has before it
abbrev pub Pending : List PhoneList → Visitor → List ℕ → Type 0
Pending column (inverse_rn it end) [] = it ≡ end
Pending column (row it end) [] = it ≡ end
Pending column (inverse_rn it end) (x ∷ xs) =
    (it ≢ end)
    × (c : PhoneList) × (get_elem? column it ≡ some c)
    × (c.phone ≡ x)
    × Pending column (inverse_rn c.next end) xs
Pending column (row it end) (x ∷ xs) =
    (it ≢ end)
    × (c : PhoneList) × (get_elem? column it ≡ some c)
    × (c.phone ≡ x)
    × Pending column (row (it + 1) end) xs

-- One `refill` takes as many numbers as there is room for, and leaves the others before it.
pub refill-Pending :
    (room : ℕ) (column : List PhoneList) (xs : List ℕ) (v : Visitor)
    → Pending column v xs
    → (v' : Visitor) × (refill room column v ≡ done (take room xs, v'))
      × Pending column v' (drop room xs)
unfolding refill
refill-Pending zero column xs v h = (v, refl, h)
refill-Pending (suc room) column [] (inverse_rn it end) h =
    (inverse_rn it end, rw ((==_iff it end).1 h, refill), h)
refill-Pending (suc room) column [] (row it end) h =
    (row it end, rw ((==_iff it end).1 h, refill), h)
refill-Pending (suc room) column (x ∷ xs) (inverse_rn it end) (ne, c, e, p, h) =
    let (v', run, later) = refill-Pending room column xs (inverse_rn c.next end) h in
    (v', rw (ne→==_false it end ne, e, run, p, refill), later)
refill-Pending (suc room) column (x ∷ xs) (row it end) (ne, c, e, p, h) =
    let (v', run, later) = refill-Pending room column xs (row (it + 1) end) h in
    (v', rw (ne→==_false it end ne, e, run, p, refill), later)

-- the loop of a client, `for (; db.hasRow(); db.advance())`, over the rows that it sees
module _ (F : Folly ℕ) (prefetch : ℕ) where
  unfoldable pub drain : ℕ → PhoneMapping F → Run (List (ℕ × ℕ))
  drain zero m = no_fuel
  drain (suc fuel) m = elim m.cursor [
    | none ↦ done []
    | some c ↦ advance F prefetch m >>= λ (m' : PhoneMapping F).
        drain fuel m' >>= λ (rest : List (ℕ × ℕ)). done ((current_pn c, current_rn c) ∷ rest)
  ]

module _ (F : Folly ℕ) (d : Data F) where
  abbrev pub rn_of : ℕ → ℕ
  rn_of pn = or_none (F.find pn d.dict)

  -- a cursor that stands on the first of the numbers `xs`
  pub record Stands (c : Cursor) (xs : List ℕ) : Type 0 where
    pub rest : List ℕ
    pub pending : Pending d.pn_column c.visitor rest
    pub rns : c.rn ≡ map rn_of c.pn
    pub inside : c.pos < length c.pn
    pub before : xs ≡ drop c.pos c.pn ++ rest

  -- the cursor of a mapping has the numbers `xs` to hand out
  abbrev pub Left : Option Cursor → List ℕ → Type 0
  Left none xs = xs ≡ []
  Left (some c) xs = Stands c xs

drop_cons {ℓ} :
    {A : Type ℓ} (xs : List A) (i : ℕ) (a : A)
    → i < length xs
    → drop i xs ≡ get_or xs i a ∷ drop (suc i) xs
drop_cons [] i a h = absurd (omega arith)
drop_cons (x ∷ xs) zero a h = refl
drop_cons (x ∷ xs) (suc i) a h = drop_cons xs i a (omega arith)

drop_all {ℓ} : {A : Type ℓ} (n : ℕ) (xs : List A) → length xs ≤ n → drop n xs ≡ []
drop_all zero [] h = refl
drop_all zero (x ∷ xs) h = absurd (omega arith)
drop_all (suc n) [] h = refl
drop_all (suc n) (x ∷ xs) h = drop_all n xs (omega arith)

get_or-map :
    (f : ℕ → ℕ) (xs : List ℕ) (i : ℕ) → i < length xs → get_or (map f xs) i 0 ≡ f (get_or xs i 0)
get_or-map f [] i h = absurd (omega arith)
get_or-map f (x ∷ xs) zero h = refl
get_or-map f (x ∷ xs) (suc i) h = get_or-map f xs i (omega arith)

module _ (F : Folly ℕ) (prefetch : ℕ) (pos : 0 < prefetch) (d : Data F) where
  -- A page is fetched with no read outside the column; it is empty only if nothing is left.
  fetch-Pending :
      (v : Visitor) (xs : List ℕ)
      → Pending d.pn_column v xs
      → (v' : Visitor) × (fetch F prefetch d v
          ≡ done
              (record { visitor = v'; pn = take 8 xs; rn = map (rn_of F d) (take 8 xs); pos = 0 }))
        × Pending d.pn_column v' (drop 8 xs)
  unfolding fetch
  fetch-Pending v xs h =
      let (v', run, later) = refill-Pending 8 d.pn_column xs v h in
      (v', rw (run, get_rns-find F prefetch d (take 8 xs) pos), later)

  pub fetch-Stands :
      (v : Visitor) (x : ℕ) (xs : List ℕ)
      → Pending d.pn_column v (x ∷ xs)
      → (c : Cursor) × (fetch F prefetch d v ≡ done c) × Stands F d c (x ∷ xs)
  fetch-Stands v x xs h =
      let (v', run, later) = fetch-Pending v (x ∷ xs) h in
      (
        record {
          visitor = v';
          pn = take 8 (x ∷ xs);
          rn = map (rn_of F d) (take 8 (x ∷ xs));
          pos = 0;
        },
        run,
        record {
          rest = drop 8 (x ∷ xs);
          pending = later;
          rns = refl;
          inside = omega arith;
          before = sym (take-append-drop 8 (x ∷ xs));
        },
      )

  Stands-nonempty : (c : Cursor) → ¬ Stands F d c []
  Stands-nonempty c s = cc (s.before ∙ ap (λ ys. ys ++ s.rest) (drop_cons c.pn c.pos 0 s.inside))

  -- what `advance` makes of a page that was just fetched
  abbrev keep : Cursor → Run (PhoneMapping F)
  keep c = done (record { content = d; cursor = if length c.pn == 0 then none else some c })

  fetch-Left :
      (v : Visitor) (xs : List ℕ)
      → Pending d.pn_column v xs
      → (o : Option Cursor) × ((fetch F prefetch d v >>= keep)
          ≡ done (record { content = d; cursor = o }))
        × Left F d o xs
  fetch-Left v [] h = let (v', run, later) = fetch-Pending v [] h in (none, rw run, refl)
  fetch-Left v (x ∷ xs) h =
      let (c, run, s) = fetch-Stands v x xs h in
      (
        some c,
        rw run (
            ap (λ b. done (record { content = d; cursor = if b then none else some c }))
              (ne→==_false (length c.pn) 0 (omega (arith, s.inside)))),
        s,
      )

  -- A standing cursor shows its first number with the routing number of the map, and `advance`
  -- moves it to the others, or drops it after the last.
  pub advance-Left :
      (c : Cursor) (x : ℕ) (xs : List ℕ)
      → Stands F d c (x ∷ xs)
      → (o : Option Cursor) × (advance F prefetch (record { content = d; cursor = some c })
          ≡ done (record { content = d; cursor = o }))
        × (current_pn c ≡ x)
        × (current_rn c ≡ rn_of F d x)
        × Left F d o xs
  unfolding advance advance_cursor current_pn current_rn
  advance-Left c x xs s =
      let split : x ∷ xs ≡ get_or c.pn c.pos 0 ∷ (drop (suc c.pos) c.pn ++ s.rest) =
        s.before ∙ ap (λ ys. ys ++ s.rest) (drop_cons c.pn c.pos 0 s.inside) in
      let first : get_or c.pn c.pos 0 ≡ x = cc in
      let others : xs ≡ drop (suc c.pos) c.pn ++ s.rest = cc in
      let routed : get_or c.rn c.pos 0 ≡ rn_of F d x =
        rw (s.rns, get_or-map (rn_of F d) c.pn c.pos s.inside, first) in
      elim (Bool-cases (c.pos + 1 == length c.pn)) [
        | inl last ↦
            let end : length c.pn ≤ suc c.pos = ground arith in
            let (o, run, left) = fetch-Left c.visitor s.rest s.pending in
            (o, rw last run, first, routed, rw (others, drop_all (suc c.pos) c.pn end) left)
        | inr more ↦ (
          some (record c { pos = c.pos + 1 }),
          rw more (
              ap
                (λ b. done (record {
                  content = d;
                  cursor = if b then none else some (record c { pos = c.pos + 1 });
                }))
                (ne→==_false (length c.pn) 0 (omega (arith, s.inside)))),
          first,
          routed,
          record {
            rest = s.rest;
            pending = s.pending;
            rns = s.rns;
            inside = ground arith;
            before = rw add-one others;
          },
        )
      ]

  -- A client's loop ends, and sees each number with its routing number, in order.
  pub drain-Left :
      (xs : List ℕ) (o : Option Cursor) (fuel : ℕ)
      → Left F d o xs
      → length xs < fuel
      → drain F prefetch fuel (record { content = d; cursor = o })
        ≡ done (map (λ x. (x, rn_of F d x)) xs)
  unfolding drain
  drain-Left xs o zero h f = absurd (omega arith)
  drain-Left xs none (suc fuel) h f = rw h
  drain-Left [] (some c) (suc fuel) h f = absurd (Stands-nonempty c h)
  drain-Left (x ∷ xs) (some c) (suc fuel) h f =
      let (o, run, a, b, later) = advance-Left c x xs h in
      rw (run, drain-Left xs o fuel later (omega arith), a, b)

  abbrev opened : Cursor → Run (PhoneMapping F)
  opened c = done (record { content = d; cursor = some c })

  abbrev closed : Run (PhoneMapping F)
  closed = done (record { content = d; cursor = none })

  -- opening a cursor on the entries between two places of the column
  pub open_inverse :
      (b e : ℕ) (xs : List ℕ)
      → Pending d.pn_column (inverse_rn b e) xs
      → (o : Option Cursor) × ((if b == e
            then closed
            else (fetch F prefetch d (inverse_rn b e) >>= opened))
          ≡ done (record { content = d; cursor = o }))
        × Left F d o xs
  open_inverse b e [] h = (none, rw ((==_iff b e).1 h), refl)
  open_inverse b e (x ∷ xs) h =
      let (c, run, s) = fetch-Stands (inverse_rn b e) x xs h in
      (some c, rw (ne→==_false b e h.0, run), s)

  -- opening a cursor on all the rows
  pub open_rows :
      (n : ℕ) (xs : List ℕ)
      → Pending d.pn_column (row 0 n) xs
      → (o : Option Cursor) × ((if ltb 0 n
            then (fetch F prefetch d (row 0 n) >>= opened)
            else closed)
          ≡ done (record { content = d; cursor = o }))
        × Left F d o xs
  open_rows n [] h = (none, rw (← h), refl)
  open_rows n (x ∷ xs) h =
      let (c, run, s) = fetch-Stands (row 0 n) x xs h in
      (some c, rw (lt→ltb 0 n (omega (arith, h.0)), run), s)
