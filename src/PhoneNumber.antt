-- ===== src/PhoneNumber.antt =====
-- `PhoneNumber::fromString` of callfwd/PhoneMapping.cpp.
pub mod Laws
use lnr_high_performance.Base.{
  ℕ, Bool, true, false, ◌||◌, Option, none, some, List, [], ◌∷◌, Bytes, ltb, ◌==◌, if◌then◌else◌,
  length, not,
}
use lnr_high_performance.PhoneMapping.{none_number}
use lnr_high_performance.Vendor.{FollyText}

-- `strchr(" -()", c) != NULL`, which also finds the terminating zero
abbrev pub is_punctuation : ℕ → Bool
is_punctuation c = c == b' ' || c == b'-' || c == b'(' || c == b')' || c == 0

-- `std::copy_if` of the other characters
unfoldable pub keep_digits : Bytes → Bytes
keep_digits [] = []
keep_digits (c ∷ cs) = let rest = keep_digits cs in if is_punctuation c then rest else c ∷ rest

module _ (T : FollyText) where
  -- the text behind the country code
  unfoldable pub strip_country : Bytes → Bytes
  strip_country s =
      if length s == 12
      then T.remove_prefix (b'+' ∷ b'1' ∷ []) s
      else if length s == 11
      then T.remove_prefix (b'1' ∷ []) s
      else s

  -- the number of a text without punctuation
  unfoldable pub number_of : Bytes → ℕ
  number_of s =
      if length s == 10
      then (elim (T.try_to_uint64 s) [ some n ↦ n | none ↦ none_number ])
      else none_number

  unfoldable pub from_string : Bytes → ℕ
  from_string s =
      if ltb 30 (length (T.trim_whitespace s))
      then none_number
      else number_of (strip_country (keep_digits (T.trim_whitespace s)))
