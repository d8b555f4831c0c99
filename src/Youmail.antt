-- ===== src/Youmail.antt =====
-- callfwd/YoumailMapping.cpp: fraud scores by number.
use lnr_high_performance.Base.{
  ◌∙◌, false, sym, ap, refl, ◌⊎◌, inl, inr, ℕ, suc, ◌+◌, ◌-◌, ◌<◌, ◌≡◌, not, ◌&&◌, Option, none,
  some, List, [], ◌∷◌, map, length, Bytes, ◌==◌, if◌then◌else◌, get_or, All, bad_columns, Result,
  ok, err, and_then, Run, done, ◌>>=◌,
}
use lnr_high_performance.Csv.Lines.{IsLine, text_of, at}
use lnr_high_performance.Csv.{Loaded, load_rows}
use lnr_high_performance.Keyed.Spelled.{Spelled, first_of, load_rows-first_of}
use lnr_high_performance.Keyed.Answers.{answer, entry}
use lnr_high_performance.Text.Columns.{
  IsColumn, Written, closed, split_line-Written, get_or-Written, get_or-closed,
}
use lnr_high_performance.Keyed.{Table, new_table, insert_row, get_all, with_columns}
use lnr_high_performance.Keyed
use lnr_high_performance.Text.{stoll, split_line, field}
use lnr_high_performance.Vendor.{Folly}

pub record YoumailData : Type 0 where
  pub pn : ℕ
  pub sapmscore : Bytes
  pub fraudprobability : Bytes
  pub unlawful : Bytes
  pub tcpafraud : Bytes

-- the tests of `fromCSV` on a line, and its columns
unfoldable pub columns : Bytes → Result (Option (List Bytes))
columns line =
    let parts = split_line line in
    if not (get_or line 0 0 == b'+')
    then ok none
    else if length parts == 5
    then ok (some parts)
    else if length parts == 4 && (get_or line (length line - 1) 0 == b',')
    then ok (some parts)
    else err bad_columns

-- `phoneNumberStr.find("+1")` and the `erase`: the first "+1" goes
unfoldable pub erase_country : Bytes → Bytes
erase_country [] = []
erase_country (c ∷ []) = c ∷ []
erase_country (c ∷ d ∷ s) =
    let rest = erase_country (d ∷ s) in if (c == b'+') && (d == b'1') then s else c ∷ rest

-- the key that `addRow` computes
unfoldable pub key_of : List Bytes → Result ℕ
key_of parts = and_then (field 0 parts) λ s. stoll (erase_country s)

-- the value that `addRow` fills in
unfoldable pub data_of : ℕ → List Bytes → Result YoumailData
data_of pn parts = and_then (field 1 parts) λ sapmscore.
    and_then (field 2 parts) λ fraudprobability. and_then (field 3 parts) λ unlawful.
      and_then (if length parts == 4 then ok [] else field 4 parts) λ tcpafraud. ok (record {
        pn = pn;
        sapmscore = sapmscore;
        fraudprobability = fraudprobability;
        unlawful = unlawful;
        tcpafraud = tcpafraud;
      })

-- what an answer becomes for which there is no entry: its other fields stay
abbrev pub missing : YoumailData → YoumailData
missing old = record old { pn = 0 }

-- What a line says. One that does not start with '+' is skipped; any other is a row of which the
-- first column is +1 and the number, and the others are kept: five columns, or four and a comma,
-- where the last is empty.
abbrev pub Spells : Bytes → Option (ℕ × YoumailData) → Type 0
Spells line none = (get_or line 0 0 == b'+') ≡ false
Spells line (some e) =
    (number score fraud unlawful tcpa : Bytes) × (Written
        ((b'+' ∷ b'1' ∷ number) ∷ score ∷ fraud ∷ unlawful ∷ tcpa ∷ []) line
      ⊎ (All IsColumn ((b'+' ∷ b'1' ∷ number) ∷ score ∷ fraud ∷ unlawful ∷ [])
          × (line ≡ closed ((b'+' ∷ b'1' ∷ number) ∷ score ∷ fraud ∷ unlawful ∷ []))
          × (tcpa ≡ [])))
    × (stoll number ≡ ok e.0)
    × (e.1 ≡ record {
      pn = e.0;
      sapmscore = score;
      fraudprobability = fraud;
      unlawful = unlawful;
      tcpafraud = tcpa;
    })

entry-Spells :
    (line : Bytes) (e : Option (ℕ × YoumailData))
    → Spells line e
    → entry columns key_of (λ k. k) data_of line ≡ ok e
unfolding entry columns key_of data_of field erase_country
entry-Spells line none h = rw h refl
entry-Spells line (some e) (number, score, fraud, unlawful, tcpa, inl w, n, v) =
    rw
      (
        split_line-Written ((b'+' ∷ b'1' ∷ number) ∷ score ∷ fraud ∷ unlawful ∷ tcpa ∷ []) line w,
        get_or-Written b'+' (b'1' ∷ number) score (fraud ∷ unlawful ∷ tcpa ∷ []) line w,
        n,
      )
      (ap (λ x. ok (some (e.0, x))) (sym v))
entry-Spells line (some e) (number, score, fraud, unlawful, tcpa, inr (cols, w, empty), n, v) =
    let start =
      get_or-Written b'+' (b'1' ∷ number) score (fraud ∷ unlawful ∷ []) line (cols, inr w) in
    let ends = get_or-closed (b'+' ∷ b'1' ∷ number) (score ∷ fraud ∷ unlawful ∷ []) line w in
    rw
      (
        split_line-Written ((b'+' ∷ b'1' ∷ number) ∷ score ∷ fraud ∷ unlawful ∷ []) line
            (cols, inr w),
        start,
        ends,
        n,
      )
      (ap
          (λ t. ok (
            some (
              e.0,
              record {
                pn = e.0;
                sapmscore = score;
                fraudprobability = fraud;
                unlawful = unlawful;
                tcpafraud = t;
              },
            )))
          (sym empty)
        ∙ ap (λ x. ok (some (e.0, x))) (sym v))

module _ (F : Folly YoumailData) where
  unfoldable pub add_row : List Bytes → Table F → Result (Table F)
  add_row parts d = and_then (key_of parts) λ k. insert_row F k k (data_of k parts) d

  -- the body of the loop of `fromCSV`
  unfoldable pub read_line : Bytes → Table F → Result (Table F)
  read_line line d = with_columns (columns line) add_row d

  unfoldable pub get_youmails : ℕ → Table F → List (ℕ × YoumailData) → Run (List YoumailData)
  get_youmails prefetch d out = get_all F (λ pn. pn) (λ v. v) missing prefetch d out

  -- `old` is what the local variable holds before
  unfoldable pub get_youmail : ℕ → Table F → YoumailData → ℕ → Run YoumailData
  get_youmail prefetch d old pn =
      get_youmails prefetch d ((pn, old) ∷ []) >>= λ out. done (get_or out 0 old)

  unfoldable pub build : Table F → Table F
  build d = Keyed.build F d

  -- Loading a file of complete lines into a new builder without an exception, whatever the batch
  -- size, and building it: each number of a batch is then answered with the scores of the
  -- first row that has it behind its +1, or pn becomes 0 and the rest of the answer stays.
  -- Every line does not start with '+' and is skipped, or is such a row.
  pub get_youmails-load :
      (k fuel prefetch : ℕ) (ls : List Bytes) (es : List (Option (ℕ × YoumailData)))
      (l : Loaded (Table F))
      → Spelled Spells ls es
      → All IsLine ls
      → length ls + 1 < fuel
      → 0 < prefetch
      → load_rows read_line (suc k) fuel (at (text_of ls [])) 0 (new_table F) ≡ done l
      → l.thrown ≡ none
      → (out : List (ℕ × YoumailData))
      → get_youmails prefetch (build l.content) out
        ≡ done (
            map
              (λ (p : ℕ × YoumailData).
                answer (λ v. v) (λ old. record old { pn = 0 }) (first_of (p.0) es) p.1)
              out)
  unfolding add_row read_line get_youmails build
  get_youmails-load k fuel prefetch ls es l spelled lines enough pos run fine out =
      load_rows-first_of F columns key_of (λ k. k) data_of Spells entry-Spells (λ pn. pn) (λ v. v)
        (λ old. record old { pn = 0 }) k fuel prefetch ls es l spelled lines enough pos run fine out
