-- ===== src/Csv/Load.antt =====
-- Loading a file is a fold over its lines: the batches of the loader do not show, and the last
-- line must end with a newline.
use lnr_high_performance.Base.{
  some-none, ℕ, zero, suc, ◌+◌, ◌≤◌, ◌<◌, ◌≡◌, ◌⊎◌, inl, inr, refl, sym, ap, ◌∙◌, Option, none,
  some, List, [], ◌∷◌, ◌++◌, arith, length, length-drop, take, drop, All, Bytes, Error,
  stream_failure, Result, Run, done, Result-cases, Option-cases,
}
use lnr_high_performance.Csv.Lines.{
  IsLine, text_of, at, at_end, Outcome, outcome, run_lines, left, after, from_csv_round,
  from_csv-getline, getline_last, from_csv-run_lines,
}
use lnr_high_performance.Csv.{Stream, Loaded, from_csv, load_rows}

All-drop {ℓ κ} : {A : Type ℓ} (P : A → Type κ) (n : ℕ) (xs : List A) → All P xs → All P (drop n xs)
All-drop P zero xs h = h
All-drop P (suc n) [] h = tt
All-drop P (suc n) (x ∷ xs) h = All-drop P n xs h.1

-- Either the lines ran out, or the stream stands behind those taken.
left-cases :
    (n : ℕ) (ls : List Bytes)
    → ((left n ls ≡ at_end) × (take n ls ≡ ls))
      ⊎ ((left n ls ≡ at (text_of (drop n ls) [])) × (n ≤ length ls))
left-cases zero ls = inr (refl, omega arith)
left-cases (suc n) [] = inl (refl, refl)
left-cases (suc n) (l ∷ ls) = elim (left-cases n ls) [
  | inl (e, t) ↦ inl (e, ap (◌∷◌ l) t)
  | inr (e, t) ↦ inr (e, omega arith)
]

module _ {D : Type 0} (step : Bytes → D → Result D) where
  run_lines_thrown :
      (n : ℕ) (ls : List Bytes) (line : ℕ) (d : D) (x : Error)
      → (run_lines step (take n ls) line d).2 ≡ some x
      → run_lines step ls line d ≡ run_lines step (take n ls) line d
  unfolding run_lines
  run_lines_thrown zero ls line d x h = cc
  run_lines_thrown (suc n) [] line d x h = refl
  run_lines_thrown (suc n) (l ∷ ls) line d x h = elim (Result-cases (step l d)) [
    | inl (d', e) ↦
        rw (e, run_lines) (run_lines_thrown n ls (line + 1) d' x (rw (e, run_lines) at h))
    | inr (y, e) ↦ rw (e, run_lines)
  ]

  run_lines_more :
      (n : ℕ) (ls : List Bytes) (line line' : ℕ) (d d' : D)
      → run_lines step (take n ls) line d ≡ (d', line', none)
      → run_lines step ls line d ≡ run_lines step (drop n ls) line' d'
  unfolding run_lines
  run_lines_more zero ls line line' d d' h =
      ap (λ (r : D × ℕ × Option Error). run_lines step ls r.1 r.0) h
  run_lines_more (suc n) [] line line' d d' h = h
  run_lines_more (suc n) (l ∷ ls) line line' d d' h = elim (Result-cases (step l d)) [
    | inl (a, e) ↦
        rw (e, run_lines) (run_lines_more n ls (line + 1) line' a d' (rw (e, run_lines) at h))
    | inr (y, e) ↦
        absurd (some-none (ap (λ (r : D × ℕ × Option Error). r.2) (rw (e, run_lines) at h)))
  ]

  -- what the loader does when a batch returns or throws
  resume : ℕ → ℕ → Option Error → Loaded D → Run (Loaded D)
  resume limit fuel (some e) l = done l
  resume limit fuel none l = load_rows step limit fuel l.stream l.line l.content

  load_rows_round :
      (limit fuel : ℕ) (bytes : Bytes) (line : ℕ) (d : D)
      → load_rows step limit (suc fuel) (at bytes) line d
        ≡ resume limit fuel
            (from_csv step limit (at bytes) line d).thrown
            (from_csv step limit (at bytes) line d)
  unfolding load_rows resume
  load_rows_round limit fuel bytes line d =
      cases (from_csv step limit (at bytes) line d).thrown (from_csv step limit (at bytes) line d)
    where
      cases :
          (o : Option Error) (l : Loaded D)
          → (elim o [
            | some e ↦ done l
            | none ↦ load_rows step limit fuel l.stream l.line l.content
          ])
            ≡ resume limit fuel o l
      cases none l = refl
      cases (some e) l = refl

  resume_at :
      (limit fuel : ℕ) (l : Loaded D) {s : Stream}
      → l.stream ≡ s
      → resume limit fuel none l ≡ load_rows step limit fuel s l.line l.content
  unfolding resume
  resume_at limit fuel l e = ap (λ s. load_rows step limit fuel s l.line l.content) e

  load_rows-at_end :
      (limit fuel line : ℕ) (d : D)
      → load_rows step limit (suc fuel) at_end line d
        ≡ done (record { content = d; stream = at_end; line = line; thrown = none })
  unfolding load_rows
  load_rows-at_end limit fuel line d = refl

  -- Loading a file of complete lines ends, whatever the batch size, with the outcome of taking its
  -- lines one after another: same rows, same line counter, same exception.
  pub load_rows-run_lines :
      (k fuel : ℕ) (ls : List Bytes) (line : ℕ) (d : D)
      → All IsLine ls
      → length ls + 1 < fuel
      → (l : Loaded D) × (load_rows step (suc k) fuel (at (text_of ls [])) line d ≡ done l)
        × (outcome step l ≡ run_lines step ls line d)
  load_rows-run_lines k zero ls line d h f = absurd (omega arith)
  load_rows-run_lines k (suc zero) ls line d h f = absurd (omega arith)
  load_rows-run_lines k (suc (suc fuel)) ls line d h f =
      let l = from_csv step (suc k) (at (text_of ls [])) line d in
      let (run, rest) = from_csv-run_lines step (suc k) ls line d h in
      let round = load_rows_round (suc k) (suc fuel) (text_of ls []) line d in
      elim (Option-cases l.thrown) [
        | inr (x, e) ↦ (
          l,
          round ∙ ap (λ o. resume (suc k) (suc fuel) o l) e ∙ unfold resume in refl,
          run
              ∙ sym (
                  run_lines_thrown (suc k) ls line d x
                    (ap (λ (r : Outcome step). r.2) (sym run) ∙ e)),
        )
        | inl e ↦
            let silent = ap (λ o. resume (suc k) (suc fuel) o l) e in
            let taken = sym run ∙ ap (λ o. (l.content, l.line, o)) e in
            elim (left-cases (suc k) ls) [
              | inl (s, t) ↦ (
                record { content = l.content; stream = at_end; line = l.line; thrown = none },
                round
                    ∙ silent
                    ∙ resume_at (suc k) (suc fuel) l (rest e ∙ s)
                    ∙ load_rows-at_end (suc k) fuel l.line l.content,
                sym taken ∙ ap (λ ts. run_lines step ts line d) t,
              )
              | inr (s, t) ↦
                  let behind = drop (suc k) ls in
                  let shorter : length behind + 1 < suc fuel =
                    omega (arith, length-drop (suc k) ls) in
                  let (l', loaded, same) =
                    load_rows-run_lines k (suc fuel) behind l.line l.content
                      (All-drop IsLine (suc k) ls h) shorter in
                  (
                    l',
                    round ∙ silent ∙ resume_at (suc k) (suc fuel) l (rest e ∙ s) ∙ loaded,
                    same ∙ sym (run_lines_more (suc k) ls line l.line d l.content taken),
                  )
            ]
      ]

  refused : D → ℕ → Loaded D
  refused d n = record { content = d; stream = at_end; line = n; thrown = some stream_failure }

  from_csv-at_end :
      (rounds line : ℕ) (d : D) → 0 < rounds → from_csv step rounds at_end line d ≡ refused d line
  unfolding from_csv refused
  from_csv-at_end zero line d h = absurd (omega arith)
  from_csv-at_end (suc rounds) line d h = refl

  from_csv_incomplete :
      (rounds : ℕ) (ls : List Bytes) (c : ℕ) (last : Bytes) (line n : ℕ) (d d' : D)
      → All IsLine ls
      → IsLine (c ∷ last)
      → run_lines step (ls ++ (c ∷ last) ∷ []) line d ≡ (d', n, none)
      → length ls + 1 < rounds
      → from_csv step rounds (at (text_of ls (c ∷ last))) line d ≡ refused d' n
  unfolding run_lines after
  from_csv_incomplete zero ls c last line n d d' h hl run small = absurd (omega arith)
  from_csv_incomplete (suc rounds) [] c last line n d d' h hl run small =
      from_csv-getline step rounds c last (c ∷ last) at_end line d (getline_last (c ∷ last) hl)
      ∙ elim (Result-cases (step (c ∷ last) d)) [
        | inl (a, e) ↦
            let same : Outcome step = (a, line + 1, none) in
            let ended : same ≡ (d', n, none) = rw (e, run_lines) at run in
            rw (e, after)
              (from_csv-at_end rounds (line + 1) a (omega arith)
                ∙ ap (λ (r : Outcome step). refused r.0 r.1) ended)
        | inr (y, e) ↦
            absurd (some-none (ap (λ (r : Outcome step). r.2) (rw (e, run_lines) at run)))
      ]
  from_csv_incomplete (suc rounds) (l ∷ ls) c last line n d d' h hl run small =
      from_csv_round step rounds l (text_of ls (c ∷ last)) line d h.0
      ∙ elim (Result-cases (step l d)) [
        | inl (a, e) ↦
            rw (e, after)
              (from_csv_incomplete rounds ls c last (line + 1) n a d' h.1 hl
                (rw (e, run_lines) at run) (omega arith))
        | inr (y, e) ↦
            absurd (some-none (ap (λ (r : Outcome step). r.2) (rw (e, run_lines) at run)))
      ]

  -- A file shorter than one batch whose last line has no newline is refused behind its last row,
  -- with the exception of the stream, though every line of it was taken.
  pub load_rows_incomplete :
      (limit fuel : ℕ) (ls : List Bytes) (c : ℕ) (last : Bytes) (line n : ℕ) (d d' : D)
      → All IsLine ls
      → IsLine (c ∷ last)
      → run_lines step (ls ++ (c ∷ last) ∷ []) line d ≡ (d', n, none)
      → length ls + 1 < limit
      → 0 < fuel
      → load_rows step limit fuel (at (text_of ls (c ∷ last))) line d
        ≡ done (record { content = d'; stream = at_end; line = n; thrown = some stream_failure })
  unfolding resume refused
  load_rows_incomplete limit fuel ls c last line n d d' h hl run small pos = go fuel pos
    where
      go :
          (f : ℕ)
          → 0 < f
          → load_rows step limit f (at (text_of ls (c ∷ last))) line d ≡ done (refused d' n)
      go zero k = absurd (omega arith)
      go (suc f) k =
          load_rows_round limit f (text_of ls (c ∷ last)) line d
          ∙ ap (λ (l : Loaded D). resume limit f l.thrown l)
              (from_csv_incomplete limit ls c last line n d d' h hl run small)
