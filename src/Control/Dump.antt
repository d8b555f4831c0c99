-- ===== src/Control/Dump.antt =====
-- `dumpMappingFile` of callfwd/Control.cpp: a loaded routing database written to a file, and read
-- back. `show` is the decimal text that a stream gives a number.
use lnr_high_performance.Base.{
  no_fuel_done, bind_done, done_inj, ℕ, zero, suc, ◌+◌, ◌<◌, ◌≡◌, refl, sym, ap, subst, ◌∙◌, Option,
  none, some, List, [], ◌∷◌, ◌++◌, arith, length, take, drop, length-drop, All, Bytes, Run, done,
  fault, no_fuel, ◌>>=◌, Option-cases, inl, inr,
}
use lnr_high_performance.PhoneMapping.Builder.{Holds}
use lnr_high_performance.PhoneMapping.Cursors.{drain}
use lnr_high_performance.PhoneMapping.Rows.{Row, Fits}
use lnr_high_performance.PhoneMapping.Visit.{visit_rows-rows}
use lnr_high_performance.PhoneMapping.{
  Data, PhoneMapping, Cursor, build, visit_rows, advance, current_pn, current_rn,
}
use lnr_high_performance.Vendor.{Folly}
use mathlib.Core.List.{append_assoc}

-- `out << db.currentPN() << "," << db.currentRN() << "\r\n"`, without the newline
unfoldable pub dump_line : (ℕ → Bytes) → Row → Bytes
dump_line show r = show r.0 ++ (b',' ∷ (show r.1 ++ b'\r' ∷ []))

module _ (F : Folly ℕ) (prefetch : ℕ) (show : ℕ → Bytes) where
  -- the inner loop; the first argument counts the rounds left
  unfoldable pub dump_batch : ℕ → PhoneMapping F → Run (Bytes × PhoneMapping F)
  dump_batch zero db = done ([], db)
  dump_batch (suc rounds) db = elim db.cursor [
    | none ↦ done ([], db)
    | some c ↦ advance F prefetch db >>= λ (db' : PhoneMapping F).
        dump_batch rounds db' >>= λ (r : Bytes × PhoneMapping F).
        done (dump_line show (current_pn c, current_rn c) ++ b'\n' ∷ r.0, r.1)
  ]

  -- the outer loop
  unfoldable pub dump_rows : ℕ → ℕ → PhoneMapping F → Run Bytes
  dump_rows limit zero db = no_fuel
  dump_rows limit (suc fuel) db = elim db.cursor [
    | none ↦ done []
    | some c ↦ dump_batch limit db >>= λ (r : Bytes × PhoneMapping F).
        dump_rows limit fuel r.1 >>= λ (rest : Bytes). done (r.0 ++ rest)
  ]

  -- what is written to the file; a database that is not loaded is dereferenced unchecked
  unfoldable pub dump_mapping_file : ℕ → Option (Data F) → Run Bytes
  dump_mapping_file fuel none = fault
  dump_mapping_file fuel (some d) =
      visit_rows F prefetch d >>= λ (db : PhoneMapping F). dump_rows 10000 fuel db

-- the text of a file with these rows
unfoldable pub file_text : (ℕ → Bytes) → List Row → Bytes
file_text show [] = []
file_text show (r ∷ rows) = dump_line show r ++ b'\n' ∷ file_text show rows

module _ (F : Folly ℕ) (prefetch : ℕ) (show : ℕ → Bytes) where
  -- a database with these rows before it
  abbrev Left : PhoneMapping F → List Row → Type 0
  Left db rows = (fuel : ℕ) × (drain F prefetch fuel db ≡ done rows)

  closed :
      (rounds : ℕ) (db : PhoneMapping F)
      → db.cursor ≡ none
      → dump_batch F prefetch show rounds db ≡ done ([], db)
  unfolding dump_batch
  closed zero db e = refl
  closed (suc rounds) db e = ground arith

  nothing :
      (limit fuel : ℕ) (db : PhoneMapping F)
      → db.cursor ≡ none
      → dump_rows F prefetch show limit (suc fuel) db ≡ done []
  unfolding dump_rows
  nothing limit fuel db e = ground arith

  opened :
      (k fuel : ℕ) (db : PhoneMapping F) (c : Cursor)
      → db.cursor ≡ some c
      → dump_rows F prefetch show (suc k) (suc fuel) db ≡ (
          dump_batch F prefetch show (suc k) db >>= λ (r : Bytes × PhoneMapping F).
          dump_rows F prefetch show (suc k) fuel r.1 >>= λ (rest : Bytes). done (r.0 ++ rest))
  unfolding dump_rows
  opened k fuel db c e = ground arith

  dump_batch-Left :
      (rounds fuel : ℕ) (db : PhoneMapping F) (rows : List Row)
      → drain F prefetch fuel db ≡ done rows
      → (db' : PhoneMapping F) × (dump_batch F prefetch show rounds db
          ≡ done (file_text show (take rounds rows), db'))
        × Left db' (drop rounds rows)
  unfolding drain dump_batch file_text
  dump_batch-Left zero fuel db rows h = (db, refl, (fuel, h))
  dump_batch-Left (suc rounds) zero db rows h = absurd (no_fuel_done h)
  dump_batch-Left (suc rounds) (suc fuel) db rows h = elim (Option-cases db.cursor) [
    | inl e ↦
        let empty : [] ≡ rows = done_inj (rw (drain, e) at h) in
        (
          db,
          closed (suc rounds) db e
              ∙ ap (λ rs. done (file_text show (take (suc rounds) rs), db)) empty,
          (suc fuel, h ∙ ap done (sym empty) ∙ ap (λ rs. done (drop (suc rounds) rs)) empty),
        )
    | inr (c, e) ↦
        let (db', a, h') = bind_done (advance F prefetch db) _ rows (rw (drain, e) at h) in
        let (rest, b, r) = bind_done (drain F prefetch fuel db') _ rows h' in
        let r' : (current_pn c, current_rn c) ∷ rest ≡ rows = done_inj r in
        let (db2, run, left) = dump_batch-Left rounds fuel db' rest b in
        (
          db2,
          rw (dump_batch, e, a, run)
              (ap (λ rs. done (file_text show (take (suc rounds) rs), db2)) r'),
          subst (λ rs. Left db2 (drop (suc rounds) rs)) r' left,
        )
  ]

  file_text-take-drop :
      (n : ℕ) (rows : List Row)
      → file_text show (take n rows) ++ file_text show (drop n rows) ≡ file_text show rows
  unfolding file_text
  file_text-take-drop zero rows = refl
  file_text-take-drop (suc n) [] = refl
  file_text-take-drop (suc n) (r ∷ rows) =
      append_assoc (dump_line show r) (b'\n' ∷ file_text show (take n rows)) _
      ∙ ap (λ x. dump_line show r ++ b'\n' ∷ x) (file_text-take-drop n rows)

  -- The loop ends, whatever the batch size, and has written the rows before the cursor.
  dump_rows-file_text :
      (k fuel : ℕ) (db : PhoneMapping F) (rows : List Row)
      → Left db rows
      → length rows < fuel
      → dump_rows F prefetch show (suc k) fuel db ≡ done (file_text show rows)
  unfolding drain dump_rows file_text
  dump_rows-file_text k zero db rows left enough = absurd (omega arith)
  dump_rows-file_text k (suc fuel) db rows (zero, h) enough = absurd (no_fuel_done h)
  dump_rows-file_text k (suc fuel) db rows (suc steps, h) enough = elim (Option-cases db.cursor) [
    | inl e ↦
        let empty : [] ≡ rows = done_inj (rw (drain, e) at h) in
        nothing (suc k) fuel db e ∙ ap (λ rs. done (file_text show rs)) empty
    | inr (c, e) ↦
        let (db', a, h') = bind_done (advance F prefetch db) _ rows (rw (drain, e) at h) in
        let (rest, b, r) = bind_done (drain F prefetch steps db') _ rows h' in
        let some_row : length rows ≡ suc (length rest) = ap length (sym (done_inj r)) in
        let (db2, run, left) = dump_batch-Left (suc k) (suc steps) db rows h in
        let fewer : length (drop (suc k) rows) < fuel = omega (arith, length-drop (suc k) rows) in
        let later = dump_rows-file_text k fuel db2 (drop (suc k) rows) left fewer in
        let joined = ap done (file_text-take-drop (suc k) rows) in
        opened k fuel db c e ∙ (rw (run, later) joined)
  ]

  -- A dump of a built database ends, and the file has a line for each row, in insertion order.
  pub dump_mapping_file-file_text :
      {rows : List Row} {d : Data F} (h : Holds F rows d) (fuel : ℕ)
      → All Fits rows
      → 0 < prefetch
      → length rows < fuel
      → dump_mapping_file F prefetch show fuel (some (build F d)) ≡ done (file_text show rows)
  unfolding dump_mapping_file
  dump_mapping_file-file_text {rows = rows} {d = d} h fuel fits pos enough =
      let (db, opened, drained) =
        bind_done (visit_rows F prefetch (build F d)) _ _
          (visit_rows-rows F h fits prefetch (length rows + 1) pos (omega arith)) in
      rw opened (dump_rows-file_text 9999 fuel db rows (length rows + 1, drained) enough)
