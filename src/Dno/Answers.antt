-- ===== src/Dno/Answers.antt =====
-- What a mapping answers that was loaded from a file of one kind.
use lnr_high_performance.Base.{
  ℕ, suc, ◌+◌, ◌/◌, ◌<◌, ◌≡◌, refl, ap, ◌∙◌, none, List, [], ◌∷◌, map, arith, length, Bytes, All,
  ◌==◌, if◌then◌else◌, done,
}
use lnr_high_performance.Batch.{batch-map}
use lnr_high_performance.Csv.Lines.{IsLine, text_of, at}
use lnr_high_performance.Csv.{Loaded, load_rows}
use lnr_high_performance.Dno.Entries.{
  entry, is_listed, find_side_other, dict_of, step_ok, new_empty,
}
use lnr_high_performance.Dno.{
  DnoType, dno, dno_npa, dno_npa_nxx, dno_npa_nxx_x, other, Data, probe, new_data, read_line,
  tokens, fill, get_dnos,
}
use lnr_high_performance.Keyed.Sides.{find_side, load_rows-find}
use lnr_high_performance.Vendor.{Folly}
use native.Mathlib.Nat.{le_refl}

module _ (F : Folly ℕ) where
  abbrev pub answer : Data F → ℕ × ℕ → ℕ
  answer d p = probe (F.find p.0 d.dict) (
      probe (F.find (p.0 / 1000) d.dict_npa_nxx_x) (
        probe (F.find (p.0 / 10000) d.dict_npa_nxx)
          (probe (F.find (p.0 / 10000000) d.dict_npa) p.1)))

  fill-map :
      (d : Data F) (out : List (ℕ × ℕ))
      → fill F d (map (λ (p : ℕ × ℕ). tokens F p.0) out) out ≡ map (answer d) out
  unfolding fill
  fill-map d [] = refl
  fill-map d (p ∷ out) = rw (
    F.find_token-prehash,
    F.find_token-prehash,
    F.find_token-prehash,
    F.find_token-prehash,
    fill-map d out,
  )

  pub get_dnos-answer :
      (prefetch : ℕ) (d : Data F) (out : List (ℕ × ℕ))
      → 0 < prefetch
      → get_dnos F prefetch d out ≡ done (map (answer d) out)
  unfolding get_dnos
  get_dnos-answer prefetch d out pos =
      batch-map _ (answer d) prefetch (fill-map d) pos (length out) out (le_refl _)

  answer-listed :
      (kind : DnoType) (ls : List Bytes) (d : Data F) (p : ℕ × ℕ)
      → ¬ (kind ≡ other)
      → ((t j : ℕ) → F.find j (dict_of F t d) ≡ find_side (entry kind) t j ls)
      → answer d p ≡ (if p.1 == 0 then (if is_listed kind ls p.0 then 1 else 0) else p.1)
  unfolding is_listed probe
  answer-listed dno ls d p n reads =
      rw
        (
          reads 1 (p.0 / 10000000),
          reads 2 (p.0 / 10000),
          reads 3 (p.0 / 1000),
          reads 0 p.0,
          find_side_other dno ls 1 (p.0 / 10000000) refl,
          find_side_other dno ls 2 (p.0 / 10000) refl,
          find_side_other dno ls 3 (p.0 / 1000) refl,
        )
        (ground arith)
  answer-listed dno_npa ls d p n reads =
      rw
        (
          reads 1 (p.0 / 10000000),
          reads 2 (p.0 / 10000),
          reads 3 (p.0 / 1000),
          reads 0 p.0,
          find_side_other dno_npa ls 0 p.0 refl,
          find_side_other dno_npa ls 2 (p.0 / 10000) refl,
          find_side_other dno_npa ls 3 (p.0 / 1000) refl,
        )
        (ground arith)
  answer-listed dno_npa_nxx ls d p n reads =
      rw
        (
          reads 1 (p.0 / 10000000),
          reads 2 (p.0 / 10000),
          reads 3 (p.0 / 1000),
          reads 0 p.0,
          find_side_other dno_npa_nxx ls 0 p.0 refl,
          find_side_other dno_npa_nxx ls 1 (p.0 / 10000000) refl,
          find_side_other dno_npa_nxx ls 3 (p.0 / 1000) refl,
        )
        (ground arith)
  answer-listed dno_npa_nxx_x ls d p n reads =
      rw
        (
          reads 1 (p.0 / 10000000),
          reads 2 (p.0 / 10000),
          reads 3 (p.0 / 1000),
          reads 0 p.0,
          find_side_other dno_npa_nxx_x ls 0 p.0 refl,
          find_side_other dno_npa_nxx_x ls 1 (p.0 / 10000000) refl,
          find_side_other dno_npa_nxx_x ls 2 (p.0 / 10000) refl,
        )
        (ground arith)
  answer-listed other ls d p n reads = absurd (n refl)

  answers-listed :
      (kind : DnoType) (ls : List Bytes) (d : Data F)
      → ¬ (kind ≡ other)
      → ((t j : ℕ) → F.find j (dict_of F t d) ≡ find_side (entry kind) t j ls)
      → (out : List (ℕ × ℕ))
      → map (answer d) out
        ≡ map
            (λ (p : ℕ × ℕ). if p.1 == 0 then (if is_listed kind ls p.0 then 1 else 0) else p.1)
            out
  answers-listed kind ls d n reads [] = refl
  answers-listed kind ls d n reads (p ∷ out) =
      rw (answer-listed kind ls d p n reads, answers-listed kind ls d n reads out)

  -- Loading a file of complete lines of one of the four kinds into a new builder without an
  -- exception, whatever the batch size: a place of the array of answers that held 0 then says 1
  -- where a line lists the digits of the number that this kind compares, and 0 otherwise; a place
  -- that held another value keeps it.
  pub get_dnos-listed :
      (kind : DnoType) (k fuel prefetch : ℕ) (ls : List Bytes) (l : Loaded (Data F))
      → ¬ (kind ≡ other)
      → All IsLine ls
      → length ls + 1 < fuel
      → 0 < prefetch
      → load_rows (read_line F kind) (suc k) fuel (at (text_of ls [])) 0 (new_data F) ≡ done l
      → l.thrown ≡ none
      → (out : List (ℕ × ℕ))
      → get_dnos F prefetch l.content out
        ≡ done (
            map
              (λ (p : ℕ × ℕ). if p.1 == 0 then (if is_listed kind ls p.0 then 1 else 0) else p.1)
              out)
  get_dnos-listed kind k fuel prefetch ls l n lines enough pos run fine out =
      let reads : (t j : ℕ) → F.find j (dict_of F t l.content) ≡ find_side (entry kind) t j ls =
        load_rows-find F (dict_of F) (entry kind) (read_line F kind) (step_ok F kind n) k fuel ls
          (new_data F) l (new_empty F) lines enough run fine in
      get_dnos-answer prefetch l.content out pos
      ∙ ap done (answers-listed kind ls l.content n reads out)
