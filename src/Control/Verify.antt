-- ===== src/Control/Verify.antt =====
-- `verifyMappingFile` of callfwd/Control.cpp: a file compared with a loaded routing database.
use lnr_high_performance.Base.{
  ℕ, suc, ◌+◌, ◌-◌, ◌<◌, ◌≤◌, ◌≡◌, refl, ap, ◌∙◌, Bool, true, false, ◌&&◌, Option, none, some, List,
  [], ◌∷◌, Bytes, arith, ltb, ◌==◌, if◌then◌else◌, length, All, Error, out_of_bounds, diff_limit,
  Result, ok, err, Run, done, fault, ◌>>=◌, inl, inr, Bool-cases,
}
use lnr_high_performance.Csv.Lines.{IsLine, text_of, at, Outcome, run_lines}
use lnr_high_performance.Csv.Load.{load_rows-run_lines}
use lnr_high_performance.Csv.{Stream, Loaded, load_rows}
use lnr_high_performance.PhoneMapping.Builder.{Holds}
use lnr_high_performance.PhoneMapping.Lines.{to_numbers}
use lnr_high_performance.PhoneMapping.Lookup.{get_rn-find}
use lnr_high_performance.PhoneMapping.Rows.{Row, route}
use lnr_high_performance.PhoneMapping.Visit.{visit_rows-cut}
use lnr_high_performance.PhoneMapping.{Data, build, get_rn, size}
use lnr_high_performance.Vendor.{Folly, FollyText}

-- the local variables
pub record Progress : Type 0 where
  pub nrows : ℕ
  pub maxdiff : ℕ

unfoldable pub new_progress : Progress
new_progress = record { nrows = 0; maxdiff = 100 }

-- `row[0]` and `row[1]`: how many columns there are is not looked at
unfoldable pub first_two : List ℕ → Result (ℕ × ℕ)
first_two [] = err out_of_bounds
first_two (a ∷ []) = err out_of_bounds
first_two (a ∷ b ∷ rest) = ok (a, b)

unfoldable pub pair_of : FollyText → Bytes → Result (ℕ × ℕ)
pair_of T line = elim (to_numbers T (T.split b',' line)) [ err e ↦ err e | ok ns ↦ first_two ns ]

-- `if (db.getRN(row[0]) == row[1]) continue; … if (--maxdiff == 0) return false`
unfoldable pub compare_row : ℕ × ℕ → ℕ → Progress → Result Progress
compare_row r rn p =
    if rn == r.1
    then ok (record p { nrows = p.nrows + 1 })
    else if p.maxdiff == 1
    then err diff_limit
    else ok (record { nrows = p.nrows + 1; maxdiff = p.maxdiff - 1 })

unfoldable pub is_bounds : Error → Bool
is_bounds out_of_bounds = true
is_bounds _ = false

module _ (T : FollyText) (F : Folly ℕ) (prefetch : ℕ) where
  -- the body of the inner loop
  unfoldable pub verify_line : Data F → Bytes → Progress → Result Progress
  verify_line db line p = elim (pair_of T line) [
    | err e ↦ err e
    | ok r ↦ elim (get_rn F prefetch db r.0) [
      | done rn ↦ compare_row r rn p
      | _ ↦ err out_of_bounds
    ]
  ]

  -- what is returned behind the loop
  unfoldable pub verdict : Data F → Loaded Progress → Run Bool
  verdict db l = elim l.thrown [
    | some e ↦ if is_bounds e then fault else done false
    | none ↦ done (l.content.nrows == size db)
  ]

  -- the answer; a database that is not loaded is dereferenced unchecked
  unfoldable pub verify_mapping_file : ℕ → Option (Data F) → Stream → Run Bool
  verify_mapping_file fuel none s = fault
  verify_mapping_file fuel (some db) s =
      load_rows (verify_line db) 10000 fuel s 0 new_progress >>= λ (l : Loaded Progress).
      verdict db l

-- the rows of a file that the database answers otherwise
unfoldable pub differences : List Row → List Row → ℕ
differences rows [] = 0
differences rows (r ∷ file) =
    let rest = differences rows file in if route rows r.0 == r.1 then rest else suc rest

-- each line reads as a row
abbrev pub Reads : FollyText → List Bytes → List Row → Type 0
Reads T [] [] = Unit
Reads T (l ∷ ls) (r ∷ file) = (pair_of T l ≡ ok r) × Reads T ls file
Reads T _ _ = ⊥

module _ (T : FollyText) (F : Folly ℕ) (prefetch : ℕ) (pos : 0 < prefetch) {rows : List Row}
    {d : Data F} (h : Holds F rows d) where
  verify_line-route :
      (l : Bytes) (r : Row) (p : Progress)
      → pair_of T l ≡ ok r
      → verify_line T F prefetch (build F d) l p ≡ compare_row r (route rows r.0) p
  unfolding verify_line build route
  verify_line-route l r p e = rw (verify_line, e, get_rn-find F prefetch _ r.0 pos, h.reads r.0)

  -- where the comparison of the lines comes to
  abbrev Compared :
      ℕ → List Row → Progress → Outcome (verify_line T F prefetch (build F d)) → Type 0
  Compared line file p o =
      (differences rows file < p.maxdiff
        → o ≡ (
          record { nrows = p.nrows + length file; maxdiff = p.maxdiff - differences rows file },
          line + length file,
          none,
        ))
      × (p.maxdiff ≤ differences rows file → o.2 ≡ some diff_limit)

  run_lines-Compared :
      (ls : List Bytes) (file : List Row) (line : ℕ) (p : Progress)
      → 0 < p.maxdiff
      → Reads T ls file
      → Compared line file p (run_lines (verify_line T F prefetch (build F d)) ls line p)
  unfolding run_lines differences compare_row
  run_lines-Compared [] [] line p some_left reads =
      (λ few. ground arith, λ many. absurd (omega arith))
  run_lines-Compared [] (r ∷ file) line p some_left reads = absurd reads
  run_lines-Compared (l ∷ ls) [] line p some_left reads = absurd reads
  run_lines-Compared (l ∷ ls) (r ∷ file) line p some_left (e, reads) =
      elim (Bool-cases (route rows r.0 == r.1)) [
        | inl same ↦
            let q : Progress = record p { nrows = p.nrows + 1 } in
            let (few, many) = run_lines-Compared ls file (line + 1) q some_left reads in
            rw (run_lines, verify_line-route l r p e, compare_row, same)
              (λ k. few k ∙ ground arith, many)
        | inr other ↦ elim (Bool-cases (p.maxdiff == 1)) [
          | inl last ↦
              rw (run_lines, verify_line-route l r p e, compare_row, other, last)
                (λ k. absurd (ground arith), λ k. refl)
          | inr more ↦
              let q : Progress = record { nrows = p.nrows + 1; maxdiff = p.maxdiff - 1 } in
              let (few, many) = run_lines-Compared ls file (line + 1) q (ground arith) reads in
              rw (run_lines, verify_line-route l r p e, compare_row, other, more)
                (λ k. few (omega arith) ∙ ground arith, λ k. many (omega arith))
        ]
      ]

  size_built : size (build F d) ≡ length rows
  size_built = (visit_rows-cut F h 1 (length rows + 1) (omega arith) (omega arith)).0

  verdict_done :
      (l : Loaded Progress)
      → l.thrown ≡ none
      → verdict T F prefetch (build F d) l ≡ done (l.content.nrows == size (build F d))
  unfolding verdict
  verdict_done l e = rw (verdict, e)

  verdict_stopped :
      (l : Loaded Progress)
      → l.thrown ≡ some diff_limit
      → verdict T F prefetch (build F d) l ≡ done false
  unfolding verdict is_bounds
  verdict_stopped l e = rw (verdict, e)

  -- Verifying a file of complete lines, each of at least two columns that all are numbers, ends: it
  -- replies that the database matches exactly where fewer than 100 rows of the file, the first two
  -- columns of its lines, are answered otherwise and the file has as many rows as the database.
  pub verify_mapping_file-differences :
      (fuel : ℕ) (ls : List Bytes) (file : List Row)
      → All IsLine ls
      → Reads T ls file
      → length ls + 1 < fuel
      → verify_mapping_file T F prefetch fuel (some (build F d)) (at (text_of ls []))
        ≡ done (ltb (differences rows file) 100 && (length file == length rows))
  unfolding verify_mapping_file new_progress
  verify_mapping_file-differences fuel ls file lines reads enough =
      let step = verify_line T F prefetch (build F d) in
      let (l, run, same) = load_rows-run_lines step 9999 fuel ls 0 new_progress lines enough in
      let (few, many) = run_lines-Compared ls file 0 new_progress (omega arith) reads in
      elim (Bool-cases (ltb (differences rows file) 100)) [
        | inl matches ↦
            let o = same ∙ few (ground arith) in
            let clean : l.thrown ≡ none = ap (λ (o : Outcome step). o.2) o in
            let count : l.content.nrows ≡ length file =
              ap (λ (o : Outcome step). o.0.nrows) o ∙ omega arith in
            rw run (verdict_done l clean ∙ ap done (rw (count, size_built, matches)))
        | inr differs ↦
            let stopped : l.thrown ≡ some diff_limit =
              ap (λ (o : Outcome step). o.2) same ∙ many (ground arith) in
            rw (run, differs) (verdict_stopped l stopped)
      ]
