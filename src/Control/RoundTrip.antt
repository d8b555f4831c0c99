-- ===== src/Control/RoundTrip.antt =====
-- What `dump` writes, `verify` accepts and `reload` reads back.
use lnr_high_performance.Base.{
  ℕ, suc, ◌+◌, ◌<◌, ◌≤◌, ◌≡◌, ◌≢◌, refl, sym, ap, ◌∙◌, subst, true, false, none, some, List, [],
  ◌∷◌, ◌++◌, map, arith, length, length-append, length-map, All, All-append, All-mono, Bytes, leb,
  ◌==◌, ==_refl, ok, done,
}
use lnr_high_performance.Control.Dump.{
  dump_line, file_text, dump_mapping_file, dump_mapping_file-file_text,
}
use lnr_high_performance.Control.Verify.{
  pair_of, first_two, differences, Reads, verify_mapping_file, verify_mapping_file-differences,
}
use lnr_high_performance.Csv.Lines.{IsLine, text_of, at, Outcome, run_lines}
use lnr_high_performance.Csv.{Loaded, load_rows}
use lnr_high_performance.PhoneMapping.Builder.{Holds}
use lnr_high_performance.PhoneMapping.Files.{take_line, load_rows-Holds}
use lnr_high_performance.PhoneMapping.Lines.{to_numbers, two_columns, parse_line, read_line}
use lnr_high_performance.PhoneMapping.Order.{find_row_self}
use lnr_high_performance.PhoneMapping.Rows.{Row, Fits, IsKeyed, find_row, push_row, route}
use lnr_high_performance.PhoneMapping.{Data, build, max_rows, new_data}
use lnr_high_performance.Text.{is_digit}
use lnr_high_performance.Vendor.{Folly, FollyText}
use mathlib.Core.List.{append_assoc, append-nil}

abbrev pub NoComma : Bytes → Type 0
NoComma = All (λ c. c ≢ b',')

-- `folly::split` cuts a text with one comma there.
abbrev pub SplitsPairs : FollyText → Type 0
SplitsPairs T = (a b : Bytes) → NoComma a → NoComma b → T.split b',' (a ++ b',' ∷ b) ≡ a ∷ b ∷ []

-- The decimal text of a number: it has digits only, and `folly::to` reads it back, also with white
-- space behind it.
pub record IsDecimal (T : FollyText) (show : ℕ → Bytes) (n : ℕ) : Type 0 where
  pub digits : All (λ c. is_digit c ≡ true) (show n)
  pub reads : T.try_to_uint64 (show n) ≡ some n
  pub reads_blank : T.try_to_uint64 (show n ++ b'\r' ∷ []) ≡ some n

abbrev pub Prints : FollyText → (ℕ → Bytes) → Row → Type 0
Prints T show r = IsDecimal T show r.0 × IsDecimal T show r.1

digit-no_comma : (c : ℕ) → is_digit c ≡ true → c ≢ b','
digit-no_comma c h e = ground arith

digit-no_newline : (c : ℕ) → is_digit c ≡ true → c ≢ b'\n'
digit-no_newline c h e = ground arith

file_text-text_of :
    (show : ℕ → Bytes) (rows : List Row)
    → file_text show rows ≡ text_of (map (dump_line show) rows) []
unfolding file_text
file_text-text_of show [] = refl
file_text-text_of show (r ∷ rows) =
    ap (λ x. dump_line show r ++ b'\n' ∷ x) (file_text-text_of show rows)

module _ (T : FollyText) (show : ℕ → Bytes) (splits : SplitsPairs T) where
  dump_line-IsLine : (r : Row) → Prints T show r → IsLine (dump_line show r)
  unfolding dump_line
  dump_line-IsLine r (pn, rn) =
      All-append _ (show r.0) _ (All-mono _ _ (show r.0) digit-no_newline pn.digits) (
        (λ e. omega arith),
        All-append _ (show r.1) (b'\r' ∷ []) (All-mono _ _ (show r.1) digit-no_newline rn.digits)
            ((λ e. omega arith), tt),
      )

  dump_line-numbers :
      (r : Row)
      → Prints T show r
      → to_numbers T (T.split b',' (dump_line show r)) ≡ ok (r.0 ∷ r.1 ∷ [])
  unfolding dump_line to_numbers
  dump_line-numbers r (pn, rn) =
      let behind : NoComma (show r.1 ++ b'\r' ∷ []) =
        All-append _ (show r.1) (b'\r' ∷ []) (All-mono _ _ (show r.1) digit-no_comma rn.digits)
          ((λ e. omega arith), tt) in
      let cut =
        splits (show r.0) (show r.1 ++ b'\r' ∷ [])
          (All-mono _ _ (show r.0) digit-no_comma pn.digits) behind in
      rw (cut, to_numbers, pn.reads, rn.reads_blank)

  dump_line-pair_of : (r : Row) → Prints T show r → pair_of T (dump_line show r) ≡ ok r
  unfolding pair_of first_two
  dump_line-pair_of r p = rw (pair_of, dump_line-numbers r p)

  dump_line-parse_line : (r : Row) → Prints T show r → parse_line T (dump_line show r) ≡ ok r
  unfolding parse_line two_columns
  dump_line-parse_line r p = rw (parse_line, dump_line-numbers r p)

  lines-IsLine :
      (rows : List Row) → All (Prints T show) rows → All IsLine (map (dump_line show) rows)
  lines-IsLine [] p = tt
  lines-IsLine (r ∷ rows) p = (dump_line-IsLine r p.0, lines-IsLine rows p.1)

  lines-Reads :
      (rows : List Row) → All (Prints T show) rows → Reads T (map (dump_line show) rows) rows
  lines-Reads [] p = tt
  lines-Reads (r ∷ rows) p = (dump_line-pair_of r p.0, lines-Reads rows p.1)

-- a database answers its own rows
differences_self :
    (rows file : List Row)
    → All (λ r. find_row r.0 rows ≡ some r.1) file
    → differences rows file ≡ 0
unfolding differences route
differences_self rows [] h = refl
differences_self rows (r ∷ file) h =
    rw (differences, route, h.0, ==_refl r.1) (differences_self rows file h.1)

find_row-middle :
    (k : ℕ) (front rest : List Row) (r : Row)
    → find_row k (front ++ r ∷ rest) ≡ none
    → (r.0 == k) ≡ false
unfolding find_row
find_row-middle k [] rest r h = ground arith
find_row-middle k (q ∷ front) rest r h = ground (arith, find_row-middle k front rest r)

absent_front :
    (front rest : List Row) (r : Row) → IsKeyed (front ++ r ∷ rest) → find_row r.0 front ≡ none
unfolding find_row
absent_front [] rest r h = refl
absent_front (q ∷ front) rest r h =
    let apart = find_row-middle q.0 front rest r h.0 in
    let absent = absent_front front rest r h.1 in ground arith

push_row_absent :
    (front : List Row) (r : Row)
    → find_row r.0 front ≡ none
    → length front < max_rows
    → push_row front r ≡ ok (front ++ r ∷ [])
unfolding push_row
push_row_absent front r absent room =
    let fits : leb max_rows (length front) ≡ false = ground arith in rw (absent, fits)

module _ (T : FollyText) (show : ℕ → Bytes) (splits : SplitsPairs T) where
  run_lines-rows :
      (front rest : List Row) (line : ℕ)
      → All (Prints T show) rest
      → IsKeyed (front ++ rest)
      → length (front ++ rest) ≤ max_rows
      → run_lines (take_line T) (map (dump_line show) rest) line front
        ≡ (front ++ rest, line + length rest, none)
  unfolding run_lines take_line push_row
  run_lines-rows front [] line p keyed few =
      rw (append-nil front) (ap (λ n. (front, n, none)) (omega arith))
  run_lines-rows front (r ∷ rest) line p keyed few =
      let room : length front < max_rows = omega (arith, length-append front (r ∷ rest)) in
      let pushed = push_row_absent front r (absent_front front rest r keyed) room in
      let moved : front ++ r ∷ rest ≡ (front ++ r ∷ []) ++ rest =
        sym (append_assoc front (r ∷ []) rest) in
      let later =
        run_lines-rows (front ++ r ∷ []) rest (line + 1) p.1 (subst IsKeyed moved keyed)
          (subst (λ rs. length rs ≤ max_rows) moved few) in
      rw (run_lines, take_line, dump_line-parse_line T show splits r p.0, pushed)
        (later
          ∙ ap (λ rs. (rs, line + 1 + length rest, none)) (sym moved)
          ∙ ap (λ n. (front ++ r ∷ rest, n, none)) (omega arith))

  -- A dump of a built database whose numbers fit 34 bits ends. Verifying what it wrote against that
  -- database replies that they match, and loading it into a new builder throws nothing and gives the
  -- same rows, whatever the batch size.
  pub dump_mapping_file-reload :
      (F : Folly ℕ) (prefetch k fuel : ℕ) {rows : List Row} {d : Data F} (h : Holds F rows d)
      → All Fits rows
      → All (Prints T show) rows
      → 0 < prefetch
      → length rows + 1 < fuel
      → (text : Bytes) × (l : Loaded (Data F)) × (dump_mapping_file F prefetch show fuel
            (some (build F d))
          ≡ done text)
        × (verify_mapping_file T F prefetch fuel (some (build F d)) (at text) ≡ done true)
        × (load_rows (read_line T F) (suc k) fuel (at text) 0 (new_data F) ≡ done l)
        × (l.thrown ≡ none)
        × Holds F rows l.content
  dump_mapping_file-reload F prefetch k fuel {rows = rows} {d = d} h fits prints pos enough =
      let lines = map (dump_line show) rows in
      let written = file_text-text_of show rows in
      let whole = lines-IsLine T show splits rows prints in
      let count : length lines + 1 < fuel = omega (arith, length-map (dump_line show) rows) in
      let (l, loaded, (held, counted, clean)) = load_rows-Holds T F k fuel lines whole count in
      let o = run_lines-rows [] rows 0 prints h.keyed h.few in
      let verified =
        verify_mapping_file-differences T F prefetch pos h fuel lines rows whole
          (lines-Reads T show splits rows prints) count in
      let same : differences rows rows ≡ 0 =
        differences_self rows rows (find_row_self rows h.keyed) in
      (
        file_text show rows,
        l,
        dump_mapping_file-file_text F prefetch show h fuel fits pos (omega arith),
        rw written (verified ∙ rw (same, ==_refl (length rows))),
        rw written loaded,
        sym clean ∙ ap (λ (o : Outcome (take_line T)). o.2) o,
        subst (λ rs. Holds F rs l.content) (ap (λ (o : Outcome (take_line T)). o.0) o) held,
      )
