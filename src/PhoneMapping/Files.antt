-- ===== src/PhoneMapping/Files.antt =====
-- Loading a file into a builder refines taking the rows of its lines.
use lnr_high_performance.Base.{
  ℕ, suc, ◌+◌, ◌<◌, ◌≡◌, refl, ap, some, List, [], ◌∷◌, length, All, Bytes, Result, ok, err, done,
  Result-cases, inl, inr,
}
use lnr_high_performance.Csv.Lines.{IsLine, text_of, at, Outcome, outcome, run_lines}
use lnr_high_performance.Csv.Load.{load_rows-run_lines}
use lnr_high_performance.Csv.{Loaded, load_rows}
use lnr_high_performance.PhoneMapping.Builder.{Holds, Refines, new_data-Holds, add_row-Refines}
use lnr_high_performance.PhoneMapping.Rows.{Row, push_row}
use lnr_high_performance.PhoneMapping.Lines.{parse_line, read_line}
use lnr_high_performance.PhoneMapping.{Data, new_data}
use lnr_high_performance.Vendor.{Folly, FollyText}

-- the specification of one line: its row joins the rows
unfoldable pub take_line : FollyText → Bytes → List Row → Result (List Row)
take_line T line rows = elim (parse_line T line) [ err e ↦ err e | ok r ↦ push_row rows r ]

module _ (T : FollyText) (F : Folly ℕ) where
  pub read_line-Refines :
      (line : Bytes) {rows : List Row} {d : Data F}
      → Holds F rows d
      → Refines F (take_line T line rows) (read_line T F line d)
  unfolding take_line read_line
  read_line-Refines line h = elim (Result-cases (parse_line T line)) [
    | inl (r, e) ↦ rw (e, Refines, take_line, read_line) (add_row-Refines F h r.0 r.1)
    | inr (x, e) ↦ rw (e, Refines, take_line, read_line)
  ]

  -- same line counter, same exception, and the builder holds the rows
  abbrev pub Agrees : Outcome (take_line T) → Outcome (read_line T F) → Type 0
  Agrees s o = Holds F s.0 o.0 × (s.1 ≡ o.1) × (s.2 ≡ o.2)

  run_lines-Agrees :
      (ls : List Bytes) (line : ℕ) (rows : List Row) (d : Data F)
      → Holds F rows d
      → Agrees (run_lines (take_line T) ls line rows) (run_lines (read_line T F) ls line d)
  unfolding run_lines
  run_lines-Agrees [] line rows d h = (h, refl, refl)
  run_lines-Agrees (l ∷ ls) line rows d h =
      go (take_line T l rows) (read_line T F l d) refl refl (read_line-Refines l h)
        (run_lines-Agrees ls (line + 1))
    where
      go :
          (s : Result (List Row)) (o : Result (Data F))
          → take_line T l rows ≡ s
          → read_line T F l d ≡ o
          → Refines F s o
          → ((rows' : List Row) (d' : Data F)
              → Holds F rows' d'
              → Agrees
                  (run_lines (take_line T) ls (line + 1) rows')
                  (run_lines (read_line T F) ls (line + 1) d'))
          → Agrees
              (run_lines (take_line T) (l ∷ ls) line rows)
              (run_lines (read_line T F) (l ∷ ls) line d)
      go (ok rows') (ok d') p q r ih = rw (p, q, run_lines) (ih rows' d' r)
      go (err x) (err y) p q r ih = rw (p, q, run_lines) (h, refl, ap some r)
      go (ok rows') (err y) p q r ih = absurd r
      go (err x) (ok d') p q r ih = absurd r

  -- Loading a file of complete lines into a new builder ends, whatever the batch size. The builder
  -- then holds the rows of the lines up to the first that is refused, and the line counter and the
  -- exception are those of that line.
  pub load_rows-Holds :
      (k fuel : ℕ) (ls : List Bytes)
      → All IsLine ls
      → length ls + 1 < fuel
      → (l : Loaded (Data F)) × (load_rows
            (read_line T F)
            (suc k)
            fuel
            (at (text_of ls []))
            0
            (new_data F)
          ≡ done l)
        × Agrees (run_lines (take_line T) ls 0 []) (outcome (read_line T F) l)
  load_rows-Holds k fuel ls h enough =
      let (l, run, same) = load_rows-run_lines (read_line T F) k fuel ls 0 (new_data F) h enough in
      (l, run, rw same (run_lines-Agrees ls 0 [] (new_data F) (new_data-Holds F)))
