-- ===== src/Keyed/Answers.antt =====
-- A mapping that is loaded from lines answers each number by the first line of its key.
use lnr_high_performance.Base.{
  ok_err, ok_inj, done_inj, some-none, ℕ, suc, ◌+◌, ◌<◌, ◌≡◌, ◌⊎◌, inl, inr, refl, sym, ap, ◌∙◌,
  Option, none, some, List, [], ◌∷◌, map, leb, ◌==◌, if◌then◌else◌, length, Bytes, All, Result, ok,
  err, and_then, done, Result-cases, Option-cases, Bool-cases, ==_iff,
}
use lnr_high_performance.Batch.{batch-map}
use lnr_high_performance.Csv.Lines.{IsLine, text_of, at, Outcome, outcome, run_lines}
use lnr_high_performance.Csv.Load.{load_rows-run_lines}
use lnr_high_performance.Csv.{Loaded, load_rows}
use lnr_high_performance.Keyed.{Table, new_table, insert_row, build, fill, get_all, with_columns}
use lnr_high_performance.PhoneMapping.{max_rows}
use lnr_high_performance.Vendor.{Folly}
use native.Mathlib.Nat.{le_refl}

module _ {V R : Type 0} (hit : V → R) (miss : R → R) where
  -- the answer for a number of which the value is known or not
  unfoldable pub answer : Option V → R → R
  answer (some v) old = hit v
  answer none old = miss old

  answer-lem :
      (o : Option V) (old : R) → (elim o [ some v ↦ hit v | none ↦ miss old ]) ≡ answer o old
  unfolding answer
  answer-lem (some v) old = refl
  answer-lem none old = refl

module _ {V : Type 0} (F : Folly V) {R : Type 0} (key : ℕ → ℕ) (hit : V → R) (miss : R → R) where
  fill-map :
      (dict : F.Map) (out : List (ℕ × R))
      → fill F key hit miss dict (map (λ (p : ℕ × R). F.prehash (key p.0)) out) out
        ≡ map (λ (p : ℕ × R). answer hit miss (F.find (key p.0) dict) p.1) out
  unfolding fill
  fill-map dict [] = refl
  fill-map dict (p ∷ out) = rw (F.find_token-prehash, answer-lem hit miss, fill-map dict out)

  pub get_all-find :
      (prefetch : ℕ) (d : Table F) (out : List (ℕ × R))
      → 0 < prefetch
      → get_all F key hit miss prefetch d out
        ≡ done (map (λ (p : ℕ × R). answer hit miss (F.find (key p.0) d.dict) p.1) out)
  unfolding get_all
  get_all-find prefetch d out pos =
      batch-map _ (λ (p : ℕ × R). answer hit miss (F.find (key p.0) d.dict) p.1) prefetch
        (fill-map d.dict) pos (length out) out (le_refl _)

module _ {V P : Type 0} (columns : Bytes → Result (Option P)) (key_of : P → Result ℕ)
    (index_of : ℕ → ℕ) (data_of : ℕ → P → Result V) where
  -- the key and the value that a line gives
  unfoldable pub entry : Bytes → Result (Option (ℕ × V))
  entry line = and_then (columns line) λ o. elim o [
    | none ↦ ok none
    | some parts ↦ and_then (key_of parts) λ k. and_then (data_of k parts) λ v. ok (some (k, v))
  ]

  -- the value of the first line with this key
  unfoldable pub find_line : ℕ → List Bytes → Option V
  find_line k [] = none
  find_line k (l ∷ ls) =
      let rest = find_line k ls in
      elim (entry l) [
        | err e ↦ rest
        | ok o ↦ elim o [ none ↦ rest | some e ↦ if e.0 == k then some e.1 else rest ]
      ]

map_agree :
    {A B : Type 0} (f g : A → B) → ((x : A) → f x ≡ g x) → (xs : List A) → map f xs ≡ map g xs
map_agree f g h [] = refl
map_agree f g h (x ∷ xs) = rw (h x, map_agree f g h xs)

module _ {V : Type 0} (F : Folly V) where
  -- an `addRow` that succeeds had a new key and a value, and entered it
  insert_row_ok :
      (k i : ℕ) (value : Result V) (d d' : Table F)
      → insert_row F k i value d ≡ ok d'
      → (v : V) × (value ≡ ok v) × (F.find k d.dict ≡ none) × (d'.dict ≡ F.emplace k v d.dict)
  unfolding insert_row
  insert_row_ok k i value d d' h = elim (Option-cases (F.find k d.dict)) [
    | inr (v, e) ↦ absurd (ok_err (rw (e, insert_row) at h))
    | inl absent ↦ elim (Bool-cases (leb max_rows (length d.pn_column))) [
      | inl full ↦ absurd (ok_err (rw (absent, insert_row, full) at h))
      | inr room ↦ elim (Result-cases value) [
        | inr (x, e) ↦ absurd (ok_err (rw (absent, insert_row, room, e) at h))
        | inl (v, e) ↦ (v, e, absent, sym (ap dict_of (rw (absent, insert_row, room, e) at h)))
      ]
    ]
  ]
    where
      dict_of : Result (Table F) → F.Map
      dict_of (ok t) = t.dict
      dict_of (err x) = F.empty

  module _ {P : Type 0} (columns : Bytes → Result (Option P)) (key_of : P → Result ℕ)
      (index_of : ℕ → ℕ) (data_of : ℕ → P → Result V) where
    -- what a line does to the builder
    abbrev pub step : Bytes → Table F → Result (Table F)
    step line =
        with_columns (columns line)
          λ parts d. and_then (key_of parts) λ k. insert_row F k (index_of k) (data_of k parts) d

    abbrev Stepped : Bytes → Table F → Table F → Type 0
    Stepped line d d' =
        ((entry columns key_of index_of data_of line ≡ ok none) × (d ≡ d'))
        ⊎ ((k : ℕ) × (v : V) × (entry columns key_of index_of data_of line ≡ ok (some (k, v)))
            × (F.find k d.dict ≡ none)
            × (d'.dict ≡ F.emplace k v d.dict))

    row_ok :
        (line : Bytes) (parts : P) (k : ℕ) (d d' : Table F)
        → columns line ≡ ok (some parts)
        → key_of parts ≡ ok k
        → insert_row F k (index_of k) (data_of k parts) d ≡ ok d'
        → Stepped line d d'
    unfolding entry
    row_ok line parts k d d' c e h =
        let (v, value, absent, dict) = insert_row_ok k (index_of k) (data_of k parts) d d' h in
        inr (k, v, rw (c, and_then, e, value), absent, dict)

    columns_ok :
        (line : Bytes) (o : Option P) (d d' : Table F)
        → columns line ≡ ok o
        → step line d ≡ ok d'
        → Stepped line d d'
    unfolding entry
    columns_ok line none d d' c h = inl (rw (c, and_then), ok_inj (rw (c, and_then) at h))
    columns_ok line (some parts) d d' c h = elim (Result-cases (key_of parts)) [
      | inr (x, e) ↦ absurd (ok_err (rw (c, and_then, e) at h))
      | inl (k, e) ↦ row_ok line parts k d d' c e (rw (c, and_then, e) at h)
    ]

    step_ok : (line : Bytes) (d d' : Table F) → step line d ≡ ok d' → Stepped line d d'
    step_ok line d d' h = elim (Result-cases (columns line)) [
      | inr (x, e) ↦ absurd (ok_err (rw (e, and_then) at h))
      | inl (o, e) ↦ columns_ok line o d d' e h
    ]

    -- what the map already held comes first
    abbrev found : Option V → Option V → Option V
    found none o = o
    found (some v) o = some v

    found-none : (o : Option V) → o ≡ found o none
    found-none none = refl
    found-none (some v) = refl

    abbrev at_line : ℕ → List Bytes → Option V
    at_line = find_line columns key_of index_of data_of

    -- one more line, of which the rest is looked up in what it leaves
    find-Stepped :
        (j : ℕ) (line : Bytes) (ls : List Bytes) (d d' : Table F)
        → Stepped line d d'
        → found (F.find j d'.dict) (at_line j ls) ≡ found (F.find j d.dict) (at_line j (line ∷ ls))
    unfolding find_line
    find-Stepped j line ls d d' (inl (e, same)) = rw (at_line, find_line, e, ← same)
    find-Stepped j line ls d d' (inr (k, v, e, absent, dict)) =
        rw (dict, at_line, find_line, e, F.find-emplace k j v d.dict absent)
          (elim (Bool-cases (k == j)) [ inl t ↦ rw (t, ← (==_iff k j).0 t, absent) | inr n ↦ rw n ])

    find-run_lines :
        (j : ℕ) (ls : List Bytes) (line n : ℕ) (d d' : Table F)
        → run_lines step ls line d ≡ (d', n, none)
        → F.find j d'.dict ≡ found (F.find j d.dict) (at_line j ls)
    unfolding run_lines find_line
    find-run_lines j [] line n d d' h =
        ap (λ (r : Outcome step). F.find j r.0.dict) (sym h) ∙ found-none (F.find j d.dict)
    find-run_lines j (l ∷ ls) line n d d' h = elim (Result-cases (step l d)) [
      | inr (x, e) ↦ absurd (some-none (ap (λ (r : Outcome step). r.2) (rw (e, run_lines) at h)))
      | inl (d1, e) ↦
          find-run_lines j ls (line + 1) n d1 d' (rw (e, run_lines) at h)
          ∙ find-Stepped j l ls d d1 (step_ok l d d1 e)
    ]

    -- Loading a file of complete lines into a new builder without an exception, whatever the batch
    -- size, and building it: a batch of queries then ends, and answers each number with the value
    -- of the first line that has its key, or as a miss.
    pub load_rows-answer :
        {R : Type 0} (key : ℕ → ℕ) (hit : V → R) (miss : R → R) (k fuel prefetch : ℕ)
        (ls : List Bytes) (l : Loaded (Table F))
        → All IsLine ls
        → length ls + 1 < fuel
        → 0 < prefetch
        → load_rows step (suc k) fuel (at (text_of ls [])) 0 (new_table F) ≡ done l
        → l.thrown ≡ none
        → (out : List (ℕ × R))
        → get_all F key hit miss prefetch (build F l.content) out
          ≡ done (map (λ (p : ℕ × R). answer hit miss (at_line (key p.0) ls) p.1) out)
    unfolding build new_table
    load_rows-answer {R = R} key hit miss k fuel prefetch ls l lines enough pos run fine out =
        let (l', run', same) = load_rows-run_lines step k fuel ls 0 (new_table F) lines enough in
        let e : l' ≡ l = done_inj (sym run' ∙ run) in
        let taken : run_lines step ls 0 (new_table F) ≡ (l.content, l.line, none) =
          sym same ∙ ap (outcome step) e ∙ ap (λ o. (l.content, l.line, o)) fine in
        let reads : (j : ℕ) → F.find j l.content.dict ≡ at_line j ls =
          λ j. find-run_lines j ls 0 l.line (new_table F) l.content taken ∙ rw (F.find-empty) in
        get_all-find F key hit miss prefetch (build F l.content) out pos
        ∙ ap done (
            map_agree (λ (p : ℕ × R). answer hit miss (F.find (key p.0) l.content.dict) p.1)
              (λ (p : ℕ × R). answer hit miss (at_line (key p.0) ls) p.1)
              (λ p. ap (λ o. answer hit miss o p.1) (reads (key p.0))) out)
