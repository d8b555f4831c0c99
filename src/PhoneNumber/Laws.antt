-- ===== src/PhoneNumber/Laws.antt =====
-- What texts are phone numbers, and which.
use lnr_high_performance.Base.{
  ◌^◌, ◌≤◌, ◌<◌, ◌≡◌, ◌≢◌, ◌⊎◌, inl, inr, refl, sym, ap, ◌∙◌, false, some, [], ◌∷◌, Bytes, ltb,
  ◌==◌, length, arith, All, All-mono, Bool-cases, Option-cases,
}
use lnr_high_performance.PhoneMapping.{none_number}
use lnr_high_performance.PhoneNumber.{
  is_punctuation, keep_digits, strip_country, number_of, from_string,
}
use lnr_high_performance.Vendor.{FollyText, is_blank}

-- the ways to write ten digits: as they are, behind "1", and behind "+1"
abbrev pub Spells : Bytes → Bytes → Type 0
Spells s digits = (s ≡ digits) ⊎ ((s ≡ b'1' ∷ digits) ⊎ (s ≡ b'+' ∷ b'1' ∷ digits))

pub length-keep_digits-le : (s : Bytes) → length (keep_digits s) ≤ length s
unfolding keep_digits
length-keep_digits-le [] = omega arith
length-keep_digits-le (c ∷ s) = ground (arith, length-keep_digits-le s)

keep_digits-All : (s : Bytes) → All (λ c. is_punctuation c ≡ false) s → keep_digits s ≡ s
unfolding keep_digits
keep_digits-All [] h = refl
keep_digits-All (c ∷ s) h = rw (h.0, keep_digits-All s h.1)

module _ (T : FollyText) where
  strip_country-Spells :
      (s : Bytes) → length (strip_country T s) ≡ 10 → Spells s (strip_country T s)
  unfolding strip_country
  strip_country-Spells s h =
      ground
        (arith, T.remove_prefix_cases (b'+' ∷ b'1' ∷ []) s, T.remove_prefix_cases (b'1' ∷ []) s)

  number_of-cases :
      (s : Bytes)
      → (number_of T s ≡ none_number)
        ⊎ ((length s ≡ 10) × (T.try_to_uint64 s ≡ some (number_of T s)))
  unfolding number_of
  number_of-cases s = elim (Bool-cases (length s == 10)) [
    | inr n ↦ rw n (inl refl)
    | inl t ↦ rw t (elim (Option-cases (T.try_to_uint64 s)) [
      | inl e ↦ rw e (inl refl)
      | inr (v, e) ↦ rw e (inr (ground arith, refl))
    ])
  ]

  -- A text that is a phone number holds, but for punctuation and white space around it, ten
  -- digits, maybe behind "1" or "+1"; the number is the value of those, below 10^10.
  pub from_string-Spells :
      (s : Bytes)
      → from_string T s ≢ none_number
      → (digits : Bytes) × (length digits ≡ 10)
        × Spells (keep_digits (T.trim_whitespace s)) digits
        × (T.try_to_uint64 digits ≡ some (from_string T s))
        × (from_string T s < 10 ^ 10)
  unfolding from_string
  from_string-Spells s h = elim (Bool-cases (ltb 30 (length (T.trim_whitespace s)))) [
    | inl long ↦ absurd (h (rw long))
    | inr short ↦
        let kept = keep_digits (T.trim_whitespace s) in
        let digits = strip_country T kept in
        let same : from_string T s ≡ number_of T digits = rw short in
        elim (number_of-cases digits) [
          | inl e ↦ absurd (h (same ∙ e))
          | inr (ten, e) ↦
              let value : T.try_to_uint64 digits ≡ some (from_string T s) =
                e ∙ ap some (sym same) in
              (
                digits,
                ten,
                strip_country-Spells kept ten,
                value,
                rw ten at (T.try_to_uint64-lt digits (from_string T s) value),
              )
        ]
  ]

  -- A text of ten digits without white space or punctuation is the same number behind "1" and
  -- behind "+1".
  from_string_country :
      (d : Bytes)
      → length d ≡ 10
      → All (λ c. (is_blank c ≡ false) × (is_punctuation c ≡ false)) d
      → (from_string T (b'1' ∷ d) ≡ from_string T d)
        × (from_string T (b'+' ∷ b'1' ∷ d) ≡ from_string T d)
  unfolding from_string strip_country
  from_string_country d n h =
      let blanks = All-mono _ (λ c. is_blank c ≡ false) d (λ c k. k.0) h in
      let marks = All-mono _ (λ c. is_punctuation c ≡ false) d (λ c k. k.1) h in
      let bare = T.trim_whitespace-solid d blanks in
      let one = T.trim_whitespace-solid (b'1' ∷ d) (refl, blanks) in
      let plus = T.trim_whitespace-solid (b'+' ∷ b'1' ∷ d) (refl, (refl, blanks)) in
      (
        rw (
          bare,
          one,
          keep_digits-All d marks,
          keep_digits-All (b'1' ∷ d) (refl, marks),
          n,
          T.remove_prefix-append (b'1' ∷ []) d,
        ),
        rw (
          bare,
          plus,
          keep_digits-All d marks,
          keep_digits-All (b'+' ∷ b'1' ∷ d) (refl, (refl, marks)),
          n,
          T.remove_prefix-append (b'+' ∷ b'1' ∷ []) d,
        ),
      )
