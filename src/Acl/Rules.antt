-- ===== src/Acl/Rules.antt =====
-- Reading an ACL takes its rows one after another.
use lnr_high_performance.Acl.{Acls, Origin, Reader, read_row, from_csv}
use lnr_high_performance.Base.{
  ℕ, zero, suc, ◌+◌, ◌<◌, ◌≡◌, refl, List, [], ◌∷◌, ◌++◌, length, arith, All, Bytes, Result, ok,
  err, Run, done, Result-cases, inl, inr,
}
use lnr_high_performance.Csv.Lines.{IsLine, text_of, at, getline-line}
use lnr_high_performance.Csv.{Stream, getline}
use lnr_high_performance.Vendor.{FollyText}

module _ (A : Acls) (T : FollyText) where
  -- the rows of the lines up to the first that is refused, and the lines counted
  unfoldable pub read_lines : List Bytes → ℕ → Reader A → Result (Origin A) × ℕ
  read_lines [] line r = (ok r.origin, line)
  read_lines (l ∷ ls) line r = elim (read_row A (T.split b',' l) r) [
    | err e ↦ (err e, line + 1)
    | ok r' ↦ read_lines ls (line + 1) r'
  ]

  abbrev continued : ℕ → Bytes × Stream → ℕ → Reader A → Run (Result (Origin A) × ℕ)
  continued fuel g line r = elim (read_row A (T.split b',' g.0) r) [
    | err e ↦ done (err e, line + 1)
    | ok r' ↦ from_csv A T fuel g.1 (line + 1) r'
  ]

  round :
      (l rest : Bytes) (fuel line : ℕ) (r : Reader A)
      → from_csv A T (suc fuel) (at (l ++ b'\n' ∷ rest)) line r
        ≡ continued fuel (getline (l ++ b'\n' ∷ rest)) line r
  unfolding from_csv
  round [] rest fuel line r = refl
  round (c ∷ l) rest fuel line r = refl

  -- Reading an ACL of complete lines ends: it takes the rows one after another into one rule and one
  -- map, up to the first that is refused, which is counted too; the map is that of all rows, or none.
  pub from_csv-read_lines :
      (ls : List Bytes) (fuel line : ℕ) (r : Reader A)
      → All IsLine ls
      → length ls < fuel
      → from_csv A T fuel (at (text_of ls [])) line r ≡ done (read_lines ls line r)
  unfolding from_csv read_lines
  from_csv-read_lines ls zero line r h f = absurd (omega arith)
  from_csv-read_lines [] (suc fuel) line r h f = refl
  from_csv-read_lines (l ∷ ls) (suc fuel) line r h f =
      rw (round l (text_of ls []) fuel line r, getline-line l (text_of ls []) h.0)
        (elim (Result-cases (read_row A (T.split b',' l) r)) [
          | inr (e, x) ↦ rw (continued, x, read_lines)
          | inl (r', x) ↦
              rw (continued, x, read_lines)
                (from_csv-read_lines ls fuel (line + 1) r' h.1 (omega arith))
        ])
