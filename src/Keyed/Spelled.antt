-- ===== src/Keyed/Spelled.antt =====
-- A mapping that is loaded from lines of known rows answers each number by the first row of its key.
use lnr_high_performance.Base.{
  ℕ, suc, ◌+◌, ◌<◌, ◌≡◌, refl, ap, ◌∙◌, Option, none, some, List, [], ◌∷◌, map, ◌==◌, if◌then◌else◌,
  length, Bytes, All, Result, ok, done,
}
use lnr_high_performance.Csv.Lines.{IsLine, text_of, at}
use lnr_high_performance.Csv.{Loaded, load_rows}
use lnr_high_performance.Keyed.Answers.{answer, entry, find_line, step, load_rows-answer}
use lnr_high_performance.Keyed.{Table, new_table, build, get_all}
use lnr_high_performance.Vendor.{Folly}

-- the lines of a file, and what each says
abbrev pub Spelled : {E : Type 0} → (Bytes → E → Type 0) → List Bytes → List E → Type 0
Spelled R [] [] = Unit
Spelled R (l ∷ ls) (e ∷ es) = R l e × Spelled R ls es
Spelled R _ _ = ⊥

-- the value of the first row with this key, where some lines are no rows
abbrev pub first_of : {V : Type 0} → ℕ → List (Option (ℕ × V)) → Option V
first_of k [] = none
first_of k (none ∷ es) = first_of k es
first_of k (some e ∷ es) = if e.0 == k then some e.1 else first_of k es

module _ {V : Type 0} (F : Folly V) {P : Type 0} (columns : Bytes → Result (Option P))
    (key_of : P → Result ℕ) (index_of : ℕ → ℕ) (data_of : ℕ → P → Result V)
    (R : Bytes → Option (ℕ × V) → Type 0)
    (reads : (l : Bytes) (e : Option (ℕ × V))
      → R l e
      → entry columns key_of index_of data_of l ≡ ok e) where
  find_line-first_of :
      (j : ℕ) (ls : List Bytes) (es : List (Option (ℕ × V)))
      → Spelled R ls es
      → find_line columns key_of index_of data_of j ls ≡ first_of j es
  unfolding find_line
  find_line-first_of j [] [] h = refl
  find_line-first_of j [] (e ∷ es) h = absurd h
  find_line-first_of j (l ∷ ls) [] h = absurd h
  find_line-first_of j (l ∷ ls) (none ∷ es) h =
      rw (find_line, reads l none h.0) (find_line-first_of j ls es h.1)
  find_line-first_of j (l ∷ ls) (some e ∷ es) h =
      rw (find_line, reads l (some e) h.0, find_line-first_of j ls es h.1) refl

  module _ {A : Type 0} (key : ℕ → ℕ) (hit : V → A) (miss : A → A) where
    answers-first_of :
        (ls : List Bytes) (es : List (Option (ℕ × V)))
        → Spelled R ls es
        → (out : List (ℕ × A))
        → map
            (λ (p : ℕ × A).
              answer hit miss (find_line columns key_of index_of data_of (key p.0) ls) p.1)
            out
          ≡ map (λ (p : ℕ × A). answer hit miss (first_of (key p.0) es) p.1) out
    answers-first_of ls es h [] = refl
    answers-first_of ls es h (p ∷ out) =
        rw (find_line-first_of (key p.0) ls es h, answers-first_of ls es h out) refl

    pub load_rows-first_of :
        (k fuel prefetch : ℕ) (ls : List Bytes) (es : List (Option (ℕ × V))) (l : Loaded (Table F))
        → Spelled R ls es
        → All IsLine ls
        → length ls + 1 < fuel
        → 0 < prefetch
        → load_rows
            (step F columns key_of index_of data_of)
            (suc k)
            fuel
            (at (text_of ls []))
            0
            (new_table F)
          ≡ done l
        → l.thrown ≡ none
        → (out : List (ℕ × A))
        → get_all F key hit miss prefetch (build F l.content) out
          ≡ done (map (λ (p : ℕ × A). answer hit miss (first_of (key p.0) es) p.1) out)
    load_rows-first_of k fuel prefetch ls es l h lines enough pos run fine out =
        load_rows-answer F columns key_of index_of data_of key hit miss k fuel prefetch ls l lines
          enough pos run fine out
        ∙ ap done (answers-first_of ls es h out)
