-- ===== src/Tests/Concrete.antt =====
-- The parameters of the model made concrete: an association list for the hash map, and plain text
-- functions.
use lnr_high_performance.Base.{
  true, Bool, ℕ, suc, ◌+◌, ◌-◌, ◌*◌, ◌^◌, ◌<◌, ◌≡◌, ◌⊎◌, inl, inr, refl, sym, ap, ◌∙◌, false, ◌&&◌,
  Option, none, some, List, [], ◌∷◌, ◌++◌, Bytes, leb, ◌==◌, if◌then◌else◌, ==_refl, ==_iff, length,
  arith, All, Bool-cases, is_some,
}
use lnr_high_performance.Vendor.{Folly, FollyText, is_blank}
use lnr_high_performance.Text.Columns.{IsColumn}
use native.Mathlib.Nat.{add-zero, zero-add, pow-suc}

module _ {V : Type 0} where
  abbrev lookup : ℕ → List (ℕ × V) → Option V
  lookup k [] = none
  lookup k (e ∷ m) = if e.0 == k then some e.1 else lookup k m

  abbrev insert : ℕ → V → List (ℕ × V) → List (ℕ × V)
  insert k v m = if is_some (lookup k m) then m else (k, v) ∷ m

  pub lookup-insert :
      (k j : ℕ) (v : V) (m : List (ℕ × V))
      → lookup k m ≡ none
      → lookup j (insert k v m) ≡ (if k == j then some v else lookup j m)
  lookup-insert k j v m h = rw h

abbrev pub table : (V : Type 0) → Folly V
table V = record {
  Dynamic = Unit;
  null_dynamic = tt;
  Map = List (ℕ × V);
  Token = ℕ;
  empty = [];
  find = lookup;
  prehash = λ k. k;
  find_token = λ t k m. lookup k m;
  emplace = insert;
  find-empty = λ k. refl;
  find_token-prehash = λ k m. refl;
  find-emplace = lookup-insert;
}

abbrev pub ltrim : Bytes → Bytes
ltrim [] = []
ltrim (c ∷ s) = if is_blank c then ltrim s else c ∷ s

abbrev put : ℕ → Bytes → Bytes
put c [] = if is_blank c then [] else c ∷ []
put c (d ∷ s) = c ∷ d ∷ s

abbrev rtrim : Bytes → Bytes
rtrim [] = []
rtrim (c ∷ s) = put c (rtrim s)

put-solid : (c : ℕ) (s : Bytes) → is_blank c ≡ false → put c s ≡ c ∷ s
put-solid c [] h = rw h
put-solid c (d ∷ s) h = refl

rtrim-solid : (s : Bytes) → All (λ c. is_blank c ≡ false) s → rtrim s ≡ s
rtrim-solid [] h = refl
rtrim-solid (c ∷ s) h = ap (put c) (rtrim-solid s h.1) ∙ put-solid c s h.0

ltrim-solid : (s : Bytes) → All (λ c. is_blank c ≡ false) s → ltrim s ≡ s
ltrim-solid [] h = refl
ltrim-solid (c ∷ s) h = rw h.0

pub trim-solid : (s : Bytes) → All (λ c. is_blank c ≡ false) s → ltrim (rtrim s) ≡ s
trim-solid s h = rw (rtrim-solid s h) (ltrim-solid s h)

abbrev strip : Bytes → Bytes → Option Bytes
strip [] s = some s
strip (c ∷ p) [] = none
strip (c ∷ p) (d ∷ s) = if c == d then strip p s else none

abbrev remove : Bytes → Bytes → Bytes
remove p s = elim (strip p s) [ none ↦ s | some r ↦ r ]

strip-append : (p s : Bytes) → strip p (p ++ s) ≡ some s
strip-append [] s = refl
strip-append (c ∷ p) s = rw (==_refl c) (strip-append p s)

strip-cases :
    (p s : Bytes) → ((r : Bytes) × (s ≡ p ++ r) × (strip p s ≡ some r)) ⊎ (strip p s ≡ none)
strip-cases [] s = inl (s, refl, refl)
strip-cases (c ∷ p) [] = inr refl
strip-cases (c ∷ p) (d ∷ s) = elim (Bool-cases (c == d)) [
  | inr n ↦ rw n (inr refl)
  | inl e ↦ rw e (elim (strip-cases p s) [
    | inl (r, a, b) ↦ inl (r, (ap (λ x. x ∷ s) (sym ((==_iff c d).0 e)) ∙ ap (◌∷◌ c) a), b)
    | inr k ↦ inr k
  ])
]

pub remove-append : (p s : Bytes) → remove p (p ++ s) ≡ s
remove-append p s = rw (strip-append p s, remove)

pub remove-cases :
    (p s : Bytes) → ((r : Bytes) × (s ≡ p ++ r) × (remove p s ≡ r)) ⊎ (remove p s ≡ s)
remove-cases p s = elim (strip-cases p s) [
  | inl (r, a, b) ↦ inl (r, a, rw (b, remove))
  | inr k ↦ inr (rw (k, remove))
]

abbrev digits_value : ℕ → Bytes → Option ℕ
digits_value acc [] = some acc
digits_value acc (c ∷ s) =
    if leb b'0' c && leb c b'9' then digits_value (acc * 10 + (c - b'0')) s else none

abbrev pub to_uint64 : Bytes → Option ℕ
to_uint64 [] = none
to_uint64 (c ∷ s) = digits_value 0 (c ∷ s)

none-some : {n : ℕ} → ¬ (none ≡ some n)
none-some h = cc

digits_value-lt :
    (s : Bytes) (acc n k : ℕ) → acc < 10 ^ k → digits_value acc s ≡ some n → n < 10 ^ (k + length s)
digits_value-lt [] acc n k h e = let q : acc ≡ n = cc in rw (add-zero, ← q) h
digits_value-lt (c ∷ s) acc n k h e = elim (Bool-cases (leb b'0' c && leb c b'9')) [
  | inr no_digit ↦ absurd (none-some (rw no_digit at e))
  | inl digit ↦
      let more : acc * 10 + (c - b'0') < 10 ^ suc k = rw (pow-suc) (ground arith) in
      let shift : suc k + length s ≡ k + suc (length s) = omega arith in
      rw (← shift) (digits_value-lt s (acc * 10 + (c - b'0')) n (suc k) more (rw digit at e))
]

pub to_uint64-lt : (s : Bytes) (n : ℕ) → to_uint64 s ≡ some n → n < 10 ^ length s
to_uint64-lt [] n h = cc
to_uint64-lt (c ∷ s) n h = rw zero-add at (digits_value-lt (c ∷ s) 0 n 0 (omega arith) h)

abbrev pub glue : ℕ → List Bytes → List Bytes
glue c [] = (c ∷ []) ∷ []
glue c (p ∷ ps) = (c ∷ p) ∷ ps

abbrev pub split : ℕ → Bytes → List Bytes
split sep [] = [] ∷ []
split sep (c ∷ s) = let rest = split sep s in if c == sep then [] ∷ rest else glue c rest

abbrev pub plain : FollyText
plain = record {
  trim_whitespace = λ s. ltrim (rtrim s);
  remove_prefix = remove;
  try_to_uint64 = to_uint64;
  split = split;
  trim_whitespace-solid = trim-solid;
  remove_prefix-append = remove-append;
  remove_prefix_cases = remove-cases;
  try_to_uint64-lt = to_uint64-lt;
}

abbrev bare : Bytes → Bool
bare [] = true
bare (c ∷ s) = if c == b',' then false else bare s

abbrev all_bare : List Bytes → Bool
all_bare [] = true
all_bare (c ∷ cs) = if bare c then all_bare cs else false

pub true-false : ¬ (true ≡ false)
true-false h = cc

bare-IsColumn : (s : Bytes) → bare s ≡ true → IsColumn s
bare-IsColumn [] h = tt
bare-IsColumn (c ∷ s) h = elim (Bool-cases (c == b',')) [
  | inl e ↦ absurd (true-false (sym (rw e at h)))
  | inr e ↦ (λ same. true-false (sym ((==_iff c b',').1 same) ∙ e), bare-IsColumn s (rw e at h))
]

-- columns without a comma, by a test
pub all_bare-IsColumn : (cs : List Bytes) → all_bare cs ≡ true → All IsColumn cs
all_bare-IsColumn [] h = tt
all_bare-IsColumn (c ∷ cs) h = elim (Bool-cases (bare c)) [
  | inl e ↦ (bare-IsColumn c e, all_bare-IsColumn cs (rw e at h))
  | inr e ↦ absurd (true-false (sym (rw e at h)))
]
