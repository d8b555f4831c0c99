-- ===== src/Vendor.antt =====
-- The third-party library as the source uses it: the F14 hash map, `folly::dynamic` and the text
-- functions are parameters of the model, with the documented behaviour that the code relies on.
use lnr_high_performance.Base.{
  ℕ, ◌^◌, ◌<◌, ◌≡◌, ◌⊎◌, Bool, false, ◌||◌, List, ◌++◌, Option, none, some, ◌==◌, if◌then◌else◌,
  length, All, Bytes,
}

-- what folly takes for white space
abbrev pub is_blank : ℕ → Bool
is_blank c = c == b' ' || c == b'\n' || c == b'\r' || c == b'\t'

-- `folly::F14ValueMap<uint64_t, V>` and `folly::dynamic`.
pub record Folly (V : Type 0) : Type 1 where
  pub Dynamic : Type 0
  pub null_dynamic : Dynamic
  pub Map : Type 0
  pub Token : Type 0
  pub empty : Map
  pub find : ℕ → Map → Option V
  pub prehash : ℕ → Token
  pub find_token : Token → ℕ → Map → Option V
  pub emplace : ℕ → V → Map → Map
  -- a new map has no key
  pub find-empty : (k : ℕ) → find k empty ≡ none
  -- a find with the key's own prehash token is a find
  pub find_token-prehash : (k : ℕ) (m : Map) → find_token (prehash k) k m ≡ find k m
  -- `emplace` of an absent key adds that entry and no other
  pub find-emplace :
      (k j : ℕ) (v : V) (m : Map)
      → find k m ≡ none
      → find j (emplace k v m) ≡ (if k == j then some v else find j m)

-- `folly::trimWhitespace`, `StringPiece::removePrefix`, `folly::tryTo<uint64_t>` and `folly::split`.
pub record FollyText : Type 0 where
  pub trim_whitespace : Bytes → Bytes
  pub remove_prefix : Bytes → Bytes → Bytes
  pub try_to_uint64 : Bytes → Option ℕ
  pub split : ℕ → Bytes → List Bytes
  -- a text with no white space in it is left as it is
  pub trim_whitespace-solid : (s : Bytes) → All (λ c. is_blank c ≡ false) s → trim_whitespace s ≡ s
  -- a prefix that is there is taken off, any other leaves the text
  pub remove_prefix-append : (p s : Bytes) → remove_prefix p (p ++ s) ≡ s
  pub remove_prefix_cases :
      (p s : Bytes)
      → ((r : Bytes) × (s ≡ p ++ r) × (remove_prefix p s ≡ r)) ⊎ (remove_prefix p s ≡ s)
  -- the value of a text of n digits has at most n digits
  pub try_to_uint64-lt : (s : Bytes) (n : ℕ) → try_to_uint64 s ≡ some n → n < 10 ^ length s
