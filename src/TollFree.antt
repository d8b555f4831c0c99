-- ===== src/TollFree.antt =====
-- callfwd/TollFreeMapping.cpp: the toll-free numbers.
use lnr_high_performance.Base.{
  true, false, sym, ap, refl, ℕ, suc, ◌+◌, ◌<◌, ◌≡◌, false, ◌==◌, if◌then◌else◌, refl, ap, Option,
  none, some, List, [], ◌∷◌, map, length, Bytes, get_or, All, Result, ok, err, and_then,
  bad_columns, not, Run, done, ◌>>=◌,
}
use lnr_high_performance.Csv.Lines.{IsLine, text_of, at}
use lnr_high_performance.Csv.{Loaded, load_rows}
use lnr_high_performance.Keyed.Spelled.{Spelled, first_of, load_rows-first_of}
use lnr_high_performance.Keyed.Answers.{answer, entry}
use lnr_high_performance.Text.Columns.{Written, split_line-Written}
use lnr_high_performance.Keyed
use lnr_high_performance.Keyed.{Table, new_table, insert_row, get_all, with_columns}
use lnr_high_performance.Text.{stoll, split_line, starts_digit, field}
use lnr_high_performance.Vendor.{Folly}

-- the tests of `fromCSV` on a line, and its columns
unfoldable pub columns : Bytes → Result (Option (List Bytes))
columns line =
    let parts = split_line line in
    if not (starts_digit line)
    then ok none
    else if length parts == 3
    then ok (some parts)
    else err bad_columns

unfoldable pub key_of : List Bytes → Result ℕ
key_of parts = and_then (field 0 parts) stoll

-- What a line says. One that starts with no digit is skipped; any other is a row of three columns,
-- of which the first reads as the number.
abbrev pub Spells : Bytes → Option (ℕ × ℕ) → Type 0
Spells line none = starts_digit line ≡ false
Spells line (some e) =
    (number second third : Bytes) × Written (number ∷ second ∷ third ∷ []) line
    × (starts_digit line ≡ true)
    × (stoll number ≡ ok e.0)
    × (e.1 ≡ 1)

entry-Spells :
    (line : Bytes) (e : Option (ℕ × ℕ))
    → Spells line e
    → entry columns key_of (λ k. 1) (λ k parts. ok 1) line ≡ ok e
unfolding entry columns key_of field
entry-Spells line none h = rw h refl
entry-Spells line (some e) (number, second, third, w, d, n, v) =
    rw (split_line-Written (number ∷ second ∷ third ∷ []) line w, d, n)
      (ap (λ x. ok (some (e.0, x))) (sym v))

module _ (F : Folly ℕ) where
  unfoldable pub add_row : ℕ → ℕ → Table F → Result (Table F)
  add_row pn tollfree d = insert_row F pn tollfree (ok tollfree) d

  -- the body of the loop of `fromCSV`
  unfoldable pub read_line : Bytes → Table F → Result (Table F)
  read_line line d =
      with_columns (columns line) (λ parts d. and_then (key_of parts) λ pn. add_row pn 1 d) d

  -- what stands in the array of answers before has no effect
  unfoldable pub get_toll_frees : ℕ → Table F → List (ℕ × ℕ) → Run (List ℕ)
  get_toll_frees prefetch d out = get_all F (λ pn. pn) (λ tollfree. 1) (λ old. 0) prefetch d out

  -- `old` is what the local variable holds before
  unfoldable pub get_toll_free : ℕ → Table F → ℕ → ℕ → Run ℕ
  get_toll_free prefetch d old pn =
      get_toll_frees prefetch d ((pn, old) ∷ []) >>= λ out. done (get_or out 0 old)

  unfoldable pub build : Table F → Table F
  build d = Keyed.build F d

  -- Loading a file of complete lines into a new builder without an exception, whatever the batch
  -- size, and building it: each number of a batch is then answered with 1 where a row
  -- has it as its first column, and with 0 otherwise, whatever stood in the answer. Every
  -- line starts with no digit and is skipped, or is a row of three columns.
  pub get_toll_frees-load :
      (k fuel prefetch : ℕ) (ls : List Bytes) (es : List (Option (ℕ × ℕ))) (l : Loaded (Table F))
      → Spelled Spells ls es
      → All IsLine ls
      → length ls + 1 < fuel
      → 0 < prefetch
      → load_rows read_line (suc k) fuel (at (text_of ls [])) 0 (new_table F) ≡ done l
      → l.thrown ≡ none
      → (out : List (ℕ × ℕ))
      → get_toll_frees prefetch (build l.content) out
        ≡ done (map (λ (p : ℕ × ℕ). answer (λ v. 1) (λ old. 0) (first_of (p.0) es) p.1) out)
  unfolding add_row read_line get_toll_frees build
  get_toll_frees-load k fuel prefetch ls es l spelled lines enough pos run fine out =
      load_rows-first_of F columns key_of (λ k. 1) (λ k parts. ok 1) Spells entry-Spells (λ pn. pn)
        (λ v. 1) (λ old. 0) k fuel prefetch ls es l spelled lines enough pos run fine out
