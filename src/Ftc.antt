-- ===== src/Ftc.antt =====
-- callfwd/FtcMapping.cpp: complaints by number.
use lnr_high_performance.Base.{
  true, false, sym, ap, refl, leb, arith, ℕ, suc, ◌+◌, ◌<◌, ◌≡◌, not, Option, none, some, List, [],
  ◌∷◌, map, length, Bytes, leb, if◌then◌else◌, get_or, All, bad_columns, Result, ok, err, and_then,
  Run, done, ◌>>=◌,
}
use lnr_high_performance.Csv.Lines.{IsLine, text_of, at}
use lnr_high_performance.Csv.{Loaded, load_rows}
use lnr_high_performance.Keyed.Spelled.{Spelled, first_of, load_rows-first_of}
use lnr_high_performance.Keyed.Answers.{answer, entry}
use lnr_high_performance.Text.Columns.{Written, split_line-Written}
use lnr_high_performance.Keyed.{Table, new_table, insert_row, get_all, with_columns}
use lnr_high_performance.Keyed
use lnr_high_performance.Text.{stoll, split_line, starts_digit, field}
use lnr_high_performance.Vendor.{Folly}

pub record FtcData : Type 0 where
  pub pn : ℕ
  pub first_ftc_on : Bytes
  pub last_ftc_on : Bytes
  pub ftc_count : Bytes

-- the tests of `fromCSV` on a line, and its columns
unfoldable pub columns : Bytes → Result (Option (List Bytes))
columns line =
    let parts = split_line line in
    if not (starts_digit line)
    then ok none
    else if leb 5 (length parts)
    then ok (some parts)
    else err bad_columns

-- the key that `addRow` computes
unfoldable pub key_of : List Bytes → Result ℕ
key_of parts = and_then (field 1 parts) stoll

-- the value that `addRow` fills in
unfoldable pub data_of : ℕ → List Bytes → Result FtcData
data_of pn parts = and_then (field 2 parts) λ first_ftc_on. and_then (field 3 parts) λ last_ftc_on.
    and_then (field 5 parts) λ ftc_count. ok (record {
      pn = pn;
      first_ftc_on = first_ftc_on;
      last_ftc_on = last_ftc_on;
      ftc_count = ftc_count;
    })

-- what an answer becomes for which there is no entry: its other fields stay
abbrev pub missing : FtcData → FtcData
missing old = record old { pn = 0 }

-- What a line says. One that starts with no digit is skipped; any other is a row of at least six
-- columns, of which the second reads as the number, and the third, fourth and sixth are kept.
abbrev pub Spells : Bytes → Option (ℕ × FtcData) → Type 0
Spells line none = starts_digit line ≡ false
Spells line (some e) =
    (id number first last created count : Bytes) × (more : List Bytes) × Written
      (id ∷ number ∷ first ∷ last ∷ created ∷ count ∷ more) line
    × (starts_digit line ≡ true)
    × (stoll number ≡ ok e.0)
    × (e.1 ≡ record { pn = e.0; first_ftc_on = first; last_ftc_on = last; ftc_count = count })

entry-Spells :
    (line : Bytes) (e : Option (ℕ × FtcData))
    → Spells line e
    → entry columns key_of (λ k. k) data_of line ≡ ok e
unfolding entry columns key_of data_of field
entry-Spells line none h = rw h refl
entry-Spells line (some e) (id, number, first, last, created, count, more, w, d, n, v) =
    let wide : leb 5 (length (id ∷ number ∷ first ∷ last ∷ created ∷ count ∷ more)) ≡ true =
      ground arith in
    rw (split_line-Written (id ∷ number ∷ first ∷ last ∷ created ∷ count ∷ more) line w, d, wide, n)
      (ap (λ x. ok (some (e.0, x))) (sym v))

module _ (F : Folly FtcData) where
  unfoldable pub add_row : List Bytes → Table F → Result (Table F)
  add_row parts d = and_then (key_of parts) λ k. insert_row F k k (data_of k parts) d

  -- the body of the loop of `fromCSV`
  unfoldable pub read_line : Bytes → Table F → Result (Table F)
  read_line line d = with_columns (columns line) add_row d

  unfoldable pub get_ftcs : ℕ → Table F → List (ℕ × FtcData) → Run (List FtcData)
  get_ftcs prefetch d out = get_all F (λ pn. pn) (λ v. v) missing prefetch d out

  -- `old` is what the local variable holds before
  unfoldable pub get_ftc : ℕ → Table F → FtcData → ℕ → Run FtcData
  get_ftc prefetch d old pn =
      get_ftcs prefetch d ((pn, old) ∷ []) >>= λ out. done (get_or out 0 old)

  unfoldable pub build : Table F → Table F
  build d = Keyed.build F d

  -- Loading a file of complete lines into a new builder without an exception, whatever the batch
  -- size, and building it: each number of a batch is then answered with the record of the
  -- first row that has it as its second column, or pn becomes 0 and the rest of the answer stays.
  -- Every line starts with no digit and is skipped, or is such a row of at least six columns.
  pub get_ftcs-load :
      (k fuel prefetch : ℕ) (ls : List Bytes) (es : List (Option (ℕ × FtcData)))
      (l : Loaded (Table F))
      → Spelled Spells ls es
      → All IsLine ls
      → length ls + 1 < fuel
      → 0 < prefetch
      → load_rows read_line (suc k) fuel (at (text_of ls [])) 0 (new_table F) ≡ done l
      → l.thrown ≡ none
      → (out : List (ℕ × FtcData))
      → get_ftcs prefetch (build l.content) out
        ≡ done (
            map
              (λ (p : ℕ × FtcData).
                answer (λ v. v) (λ old. record old { pn = 0 }) (first_of (p.0) es) p.1)
              out)
  unfolding add_row read_line get_ftcs build
  get_ftcs-load k fuel prefetch ls es l spelled lines enough pos run fine out =
      load_rows-first_of F columns key_of (λ k. k) data_of Spells entry-Spells (λ pn. pn) (λ v. v)
        (λ old. record old { pn = 0 }) k fuel prefetch ls es l spelled lines enough pos run fine out
