-- ===== src/PhoneMapping/Lines.antt =====
-- The body of the loop of `fromCSV` of callfwd/PhoneMapping.cpp.
use lnr_high_performance.Base.{
  ℕ, none, some, List, [], ◌∷◌, Bytes, bad_columns, bad_conversion, Result, ok, err,
}
use lnr_high_performance.PhoneMapping.{Data, add_row}
use lnr_high_performance.Vendor.{Folly, FollyText}

-- `folly::split(',', linebuf, rowbuf)`: the pieces as numbers; one that is none throws
unfoldable pub to_numbers : FollyText → List Bytes → Result (List ℕ)
to_numbers T [] = ok []
to_numbers T (s ∷ pieces) = elim (T.try_to_uint64 s) [
  | none ↦ err bad_conversion
  | some n ↦ elim (to_numbers T pieces) [ err e ↦ err e | ok ns ↦ ok (n ∷ ns) ]
]

-- `if (rowbuf.size() == 2)`
unfoldable pub two_columns : List ℕ → Result (ℕ × ℕ)
two_columns (pn ∷ rn ∷ []) = ok (pn, rn)
two_columns _ = err bad_columns

unfoldable pub parse_line : FollyText → Bytes → Result (ℕ × ℕ)
parse_line T line = elim (to_numbers T (T.split b',' line)) [
  | err e ↦ err e
  | ok ns ↦ two_columns ns
]

-- the body of the loop of `fromCSV`
unfoldable pub read_line : FollyText → (F : Folly ℕ) → Bytes → Data F → Result (Data F)
read_line T F line d = elim (parse_line T line) [ err e ↦ err e | ok (pn, rn) ↦ add_row F d pn rn ]
