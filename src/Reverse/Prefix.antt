-- ===== src/Reverse/Prefix.antt =====
-- The range of a prefix.
use lnr_high_performance.Base.{
  none-some, some_inj, ℕ, zero, suc, ◌+◌, ◌-◌, ◌*◌, ◌/◌, ◌%◌, ◌^◌, ◌≤◌, ◌<◌, ◌≡◌, ◌↔◌, refl, sym,
  ap, ◌∙◌, Option, some, arith, List, [], ◌∷◌, ◌||◌, All, All-append, subst, length, Bytes, ltb,
  ◌&&◌, leb, true, false, Bool-cases, inl, inr, Option-cases,
}
use lnr_high_performance.Reverse.{times_ten, prefix_range, on_query_param, on_query_string}
use lnr_high_performance.Text.{codes, same_text}
use lnr_high_performance.Vendor.{FollyText}
use native.Mathlib.Nat.{
  pow-zero, pow-succ', one-le-pow, mul_assoc, one-mul, mul-le-mul_right, le-mul_of_pos_right,
  div-eq_of_lt-le, div-mul-le_self, lt-div-mul-add, zero-add,
}

abbrev pub In34 : ℕ × ℕ → Type 0
In34 r = (r.0 < 2 ^ 34) × (r.1 < 2 ^ 34)

pow_split : (a b : ℕ) → 10 ^ a * 10 ^ b ≡ 10 ^ (a + b)
pow_split zero b = rw (pow-zero, one-mul, zero-add)
pow_split (suc a) b =
    let e : suc a + b ≡ suc (a + b) = omega arith in
    rw (e, pow-succ', pow-succ', mul_assoc, pow_split a b)

pow_pos : (n : ℕ) → 0 < 10 ^ n
pow_pos n = omega (arith, one-le-pow n 10 (omega arith))

shift_ten : (x n : ℕ) → x * 10 * 10 ^ n ≡ x * 10 ^ suc n
shift_ten x n = rw (mul_assoc, pow-succ')

-- No multiplication overflows while the last product is at most 10^10.
times_ten_lem : (n x : ℕ) → x * 10 ^ n ≤ 10 ^ 10 → times_ten n x ≡ x * 10 ^ n
unfolding times_ten
times_ten_lem zero x h = omega arith
times_ten_lem (suc n) x h =
    let more : x * 10 * 10 ^ n ≤ 10 ^ 10 = rw (shift_ten) h in
    let small : x * 10 ≤ x * 10 * 10 ^ n = le-mul_of_pos_right (x * 10) (pow_pos n) in
    let exact : x * 10 % 2 ^ 64 ≡ x * 10 = omega arith in
    rw exact (times_ten_lem n (x * 10) more ∙ shift_ten x n)

-- the numbers between two multiples
block_iff : (n p rn : ℕ) → 0 < p → ((leb (n * p) rn && ltb rn ((n + 1) * p)) ≡ true) ↔ (rn / p ≡ n)
block_iff n p rn pos = (
  λ h. div-eq_of_lt-le p (ground arith) (ground arith),
  λ h.
      let low : rn / p * p ≤ rn = div-mul-le_self rn p in
      let high : rn < rn / p * p + p = lt-div-mul-add pos in
      let low' : n * p ≤ rn = rw (← h) low in
      let high' : rn < n * p + p = rw (← h) high in
      let step : (n + 1) * p ≡ n * p + p = omega arith in ground arith,
)

-- A `prefix[]` value of at most ten digits gives the range of the ten-digit numbers that start with
-- it: both ends stay below 2^34, and a number is inside exactly when its first digits are the value.
pub prefix_range-first_digits :
    (T : FollyText) (value : Bytes) (n : ℕ)
    → T.try_to_uint64 value ≡ some n
    → length value ≤ 10
    → (from : ℕ) × (to : ℕ) × (prefix_range T value ≡ some (from, to))
      × (from < 2 ^ 34)
      × (to < 2 ^ 34)
      × ((rn : ℕ) → ((leb from rn && ltb rn to) ≡ true) ↔ (rn / 10 ^ (10 - length value) ≡ n))
unfolding prefix_range
prefix_range-first_digits T value n h short =
    let p = 10 ^ (10 - length value) in
    let digits : n + 1 ≤ 10 ^ length value = omega (arith, T.try_to_uint64-lt value n h) in
    let ten : length value + (10 - length value) ≡ 10 = omega arith in
    let whole : 10 ^ length value * p ≡ 10 ^ 10 =
      pow_split (length value) (10 - length value) ∙ ap (λ e. 10 ^ e) ten in
    let last : (n + 1) * p ≤ 10 ^ 10 = rw (← whole) (mul-le-mul_right p digits) in
    let first : n * p ≤ (n + 1) * p = mul-le-mul_right p (omega arith) in
    let all : 10 ^ length value ≤ 10 ^ length value * p =
      le-mul_of_pos_right (10 ^ length value) (pow_pos (10 - length value)) in
    let exact : (n + 1) % 2 ^ 64 ≡ n + 1 = omega arith in
    let fits : ltb 10 (length value) ≡ false = ground arith in
    (
      n * p,
      (n + 1) * p,
      rw (
        prefix_range,
        fits,
        h,
        exact,
        times_ten_lem (10 - length value) n (omega arith),
        times_ten_lem (10 - length value) (n + 1) last,
      ),
      omega arith,
      omega arith,
      λ rn. block_iff n p rn (pow_pos (10 - length value)),
    )

In34-range : (T : FollyText) (value : Bytes) (r : ℕ × ℕ) → prefix_range T value ≡ some r → In34 r
unfolding prefix_range
In34-range T value r h = elim (Bool-cases (ltb 10 (length value))) [
  | inl long ↦ absurd (none-some (rw (prefix_range, long) at h))
  | inr short ↦ elim (Option-cases (T.try_to_uint64 value)) [
    | inl e ↦ absurd (none-some (rw (prefix_range, short, e) at h))
    | inr (n, e) ↦
        let (from, to, run, a, b, inside) = prefix_range-first_digits T value n e (ground arith) in
        let same : (from, to) ≡ r = some_inj (sym run ∙ h) in subst In34 same (a, b)
  ]
]

-- Every range that a query string gives lies below 2^34.
pub on_query_string-In34 :
    (T : FollyText) (params : List (Bytes × Bytes)) (query : List (ℕ × ℕ))
    → All In34 query
    → All In34 (on_query_string T params query)
unfolding on_query_string on_query_param
on_query_string-In34 T [] query h = h
on_query_string-In34 T (p ∷ params) query h =
    on_query_string-In34 T params (on_query_param T p query) (one (prefix_range T p.1) refl)
  where
    one : (o : Option (ℕ × ℕ)) → prefix_range T p.1 ≡ o → All In34 (on_query_param T p query)
    one o e =
        elim (Bool-cases
          (same_text p.0 (codes "prefix%5B%5D") || same_text p.0 (codes "prefix[]"))) [
            | inr other ↦ rw (on_query_param, other) h
            | inl prefix ↦ elim (Option-cases (prefix_range T p.1)) [
              | inl e ↦ rw (on_query_param, prefix, e) h
              | inr (r, e) ↦
                  rw (on_query_param, prefix, e)
                    (All-append In34 query (r ∷ []) h (In34-range T p.1 r e, tt))
            ]
          ]
