-- ===== src/Csv/Lines.antt =====
-- Loading a file is a fold over its lines: the batches of the loader do not show, and the last
-- line must end with a newline.
use lnr_high_performance.Base.{
  ℕ, zero, suc, ◌+◌, ◌≡◌, ◌≢◌, refl, ap, true, false, Option, none, some, List, [], ◌∷◌, ◌++◌, All,
  Bytes, Error, Result, ok, err, ne→==_false, Result-cases, inl, inr, take,
}
use lnr_high_performance.Csv.{Stream, getline, Loaded, from_csv}

-- a line has no newline in it
abbrev pub IsLine : Bytes → Type 0
IsLine = All (λ c. c ≢ b'\n')

-- the text of complete lines, in front of a rest
abbrev pub text_of : List Bytes → Bytes → Bytes
text_of [] rest = rest
text_of (l ∷ ls) rest = l ++ b'\n' ∷ text_of ls rest

abbrev pub at : Bytes → Stream
at bytes = record { bytes = bytes; eof = false }

abbrev pub at_end : Stream
at_end = record { bytes = []; eof = true }

pub getline-line : (l rest : Bytes) → IsLine l → getline (l ++ b'\n' ∷ rest) ≡ (l, at rest)
unfolding getline
getline-line [] rest h = refl
getline-line (c ∷ l) rest h =
    rw (ne→==_false c b'\n' h.0, getline)
      (ap (λ (r : Bytes × Stream). (c ∷ r.0, r.1)) (getline-line l rest h.1))

pub getline_last : (l : Bytes) → IsLine l → getline l ≡ (l, at_end)
unfolding getline
getline_last [] h = refl
getline_last (c ∷ l) h =
    rw (ne→==_false c b'\n' h.0, getline)
      (ap (λ (r : Bytes × Stream). (c ∷ r.0, r.1)) (getline_last l h.1))

-- where a call of `fromCSV` that throws nothing leaves the stream
abbrev pub left : ℕ → List Bytes → Stream
left zero ls = at (text_of ls [])
left (suc rounds) [] = at_end
left (suc rounds) (l ∷ ls) = left rounds ls

module _ {D : Type 0} (step : Bytes → D → Result D) where
  -- the builder, the line counter and the exception
  abbrev pub Outcome : Type 0
  Outcome = D × ℕ × Option Error

  abbrev pub outcome : Loaded D → Outcome
  outcome l = (l.content, l.line, l.thrown)

  -- the lines one after another, up to the first that throws
  unfoldable pub run_lines : List Bytes → ℕ → D → Outcome
  run_lines [] line d = (d, line, none)
  run_lines (l ∷ ls) line d = elim (step l d) [
    | err e ↦ (d, line, some e)
    | ok d' ↦ run_lines ls (line + 1) d'
  ]

  unfoldable pub after : ℕ → ℕ → D → Bytes → Stream → Result D → Loaded D
  after rounds line d text s (err e) = record {
    content = d;
    stream = s;
    line = line;
    thrown = some e;
  }
  after rounds line d text s (ok d') = from_csv step rounds s (line + 1) d'

  pub from_csv-getline :
      (rounds c : ℕ) (cs text : Bytes) (s : Stream) (line : ℕ) (d : D)
      → getline (c ∷ cs) ≡ (text, s)
      → from_csv step (suc rounds) (at (c ∷ cs)) line d ≡ after rounds line d text s (step text d)
  unfolding from_csv after
  from_csv-getline rounds c cs text s line d g = elim (Result-cases (step text d)) [
    | inl (d', e) ↦
        rw (g, e, from_csv) (ap (λ (r : Bytes × Stream). from_csv step rounds r.1 (line + 1) d') g)
    | inr (x, e) ↦
        rw (g, e, from_csv)
          (ap
            (λ (r : Bytes × Stream). record {
              content = d;
              stream = r.1;
              line = line;
              thrown = some x;
            })
            g)
  ]

  -- one round on a stream that starts with a complete line
  pub from_csv_round :
      (rounds : ℕ) (l rest : Bytes) (line : ℕ) (d : D)
      → IsLine l
      → from_csv step (suc rounds) (at (l ++ b'\n' ∷ rest)) line d
        ≡ after rounds line d l (at rest) (step l d)
  from_csv_round rounds [] rest line d h =
      from_csv-getline rounds b'\n' rest [] (at rest) line d (getline-line [] rest h)
  from_csv_round rounds (c ∷ l) rest line d h =
      from_csv-getline rounds c (l ++ b'\n' ∷ rest) (c ∷ l) (at rest) line d
        (getline-line (c ∷ l) rest h)

  -- One call of `fromCSV` takes the next lines, at most as many as its limit.
  pub from_csv-run_lines :
      (rounds : ℕ) (ls : List Bytes) (line : ℕ) (d : D)
      → All IsLine ls
      → (outcome (from_csv step rounds (at (text_of ls [])) line d)
          ≡ run_lines (take rounds ls) line d)
        × ((from_csv step rounds (at (text_of ls [])) line d).thrown ≡ none
            → (from_csv step rounds (at (text_of ls [])) line d).stream ≡ left rounds ls)
  unfolding run_lines after from_csv
  from_csv-run_lines zero ls line d h = (refl, λ _. refl)
  from_csv-run_lines (suc rounds) [] line d h = (refl, λ _. refl)
  from_csv-run_lines (suc rounds) (l ∷ ls) line d h =
      rw (from_csv_round rounds l (text_of ls []) line d h.0) (elim (Result-cases (step l d)) [
        | inl (d', e) ↦ rw (e, after, run_lines) (from_csv-run_lines rounds ls (line + 1) d' h.1)
        | inr (x, e) ↦ rw (e, after, run_lines) (refl, λ k. cc)
      ])
