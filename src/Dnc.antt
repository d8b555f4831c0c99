-- ===== src/Dnc.antt =====
-- callfwd/DncMapping.cpp: the numbers that must not be called.
use lnr_high_performance.Base.{
  ◌≢◌, ◌⊎◌, sym, ==_refl, ne→==_false, ℕ, true, suc, ◌+◌, ◌<◌, ◌≡◌, ◌==◌, ap, inl, inr, Option,
  none, some, List, [], ◌∷◌, map, length, Bytes, get_or, All, Result, ok, Run, done, ◌>>=◌,
}
use lnr_high_performance.Csv.Lines.{IsLine, text_of, at}
use lnr_high_performance.Csv.{Loaded, load_rows}
use lnr_high_performance.Keyed.Answers.{answer, entry}
use lnr_high_performance.Keyed.Spelled.{Spelled, first_of, load_rows-first_of}
use lnr_high_performance.Keyed
use lnr_high_performance.Keyed.{Table, new_table, insert_row, get_all}
use lnr_high_performance.Text.{extract, delete_character}
use lnr_high_performance.Vendor.{Folly}

-- The number of a line: `garbage` is what the local variable holds before it is read.
unfoldable pub number_of : ℕ → Bytes → ℕ
number_of garbage line = extract garbage (delete_character b',' line)

-- a line, and the same without its commas
abbrev pub Strips : Bytes → Bytes → Type 0
Strips [] s = s ≡ []
Strips (c ∷ line) s =
    ((c ≡ b',') × Strips line s) ⊎ ((t : Bytes) × (c ≢ b',') × (s ≡ c ∷ t) × Strips line t)

delete_character-Strips : (line s : Bytes) → Strips line s → delete_character b',' line ≡ s
unfolding delete_character
delete_character-Strips [] s h = sym h
delete_character-Strips (c ∷ line) s (inl (comma, h)) =
    let same : (c == b',') ≡ true = rw comma (==_refl b',') in
    rw same (delete_character-Strips line s h)
delete_character-Strips (c ∷ line) s (inr (t, other, k, h)) =
    rw (ne→==_false c b',' other, k) (ap (λ x. c ∷ x) (delete_character-Strips line t h))

-- What a line says: without its commas it reads as the number, whatever the variable held before.
abbrev pub Spells : Bytes → Option (ℕ × ℕ) → Type 0
Spells line none = ⊥
Spells line (some e) = (s : Bytes) × Strips line s × ((old : ℕ) → extract old s ≡ e.0) × (e.1 ≡ 1)

module _ (garbage : ℕ) where
  abbrev one_column : Bytes → Result (Option ℕ)
  one_column line = ok (some (number_of garbage line))

  entry-Spells :
      (line : Bytes) (e : Option (ℕ × ℕ))
      → Spells line e
      → entry one_column ok (λ k. 1) (λ k n. ok 1) line ≡ ok e
  unfolding entry number_of
  entry-Spells line none h = absurd h
  entry-Spells line (some e) (s, strips, reads, one) =
      rw (delete_character-Strips line s strips, reads garbage)
        (ap (λ x. ok (some (e.0, x))) (sym one))

module _ (F : Folly ℕ) where
  unfoldable pub add_row : ℕ → ℕ → Table F → Result (Table F)
  add_row pn dnc d = insert_row F pn dnc (ok dnc) d

  -- the body of the loop of `fromCSV`
  unfoldable pub read_line : ℕ → Bytes → Table F → Result (Table F)
  read_line garbage line d = add_row (number_of garbage line) 1 d

  -- what stands in the array of answers before has no effect
  unfoldable pub get_dncs : ℕ → Table F → List (ℕ × ℕ) → Run (List ℕ)
  get_dncs prefetch d out = get_all F (λ pn. pn) (λ dnc. 1) (λ old. 0) prefetch d out

  -- `old` is what the local variable holds before
  unfoldable pub get_dnc : ℕ → Table F → ℕ → ℕ → Run ℕ
  get_dnc prefetch d old pn =
      get_dncs prefetch d ((pn, old) ∷ []) >>= λ out. done (get_or out 0 old)

  unfoldable pub build : Table F → Table F
  build d = Keyed.build F d

  -- Loading a file of complete lines into a new builder without an exception, whatever the batch
  -- size, and building it: each number of a batch is then answered with 1 where a line reads as that
  -- number without its commas, and with 0 otherwise, whatever stood in the answer. Every line of the
  -- file has a number.
  pub get_dncs-load :
      (garbage k fuel prefetch : ℕ) (ls : List Bytes) (es : List (Option (ℕ × ℕ)))
      (l : Loaded (Table F))
      → Spelled Spells ls es
      → All IsLine ls
      → length ls + 1 < fuel
      → 0 < prefetch
      → load_rows (read_line garbage) (suc k) fuel (at (text_of ls [])) 0 (new_table F) ≡ done l
      → l.thrown ≡ none
      → (out : List (ℕ × ℕ))
      → get_dncs prefetch (build l.content) out
        ≡ done (map (λ (p : ℕ × ℕ). answer (λ v. 1) (λ old. 0) (first_of p.0 es) p.1) out)
  unfolding add_row read_line get_dncs build
  get_dncs-load garbage k fuel prefetch ls es l spelled lines enough pos run fine out =
      load_rows-first_of F (one_column garbage) ok (λ k. 1) (λ k n. ok 1) Spells
        (entry-Spells garbage) (λ pn. pn) (λ v. 1) (λ old. 0) k fuel prefetch ls es l spelled lines
        enough pos run fine out
