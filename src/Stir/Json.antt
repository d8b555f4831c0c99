-- ===== src/Stir/Json.antt =====
-- `folly::dynamic` as stir/ uses it: a parameter of the model.
use lnr_high_performance.Base.{◌⊎◌, inl, inr, refl, ℕ, ◌≡◌, Bool, Option, some, List, Bytes}

-- what `d[key]` and `folly::convertTo` throw; `what()` is the text of the exception
pub data Thrown : Type 0 where
  missing_key : Thrown
  type_error conversion_error : Bytes → Thrown

pub data Caught {ℓ} (A : Type ℓ) : Type ℓ where
  value : A → Caught A
  thrown : Thrown → Caught A

-- What `folly::parseJson` does: a document, a `parse_error`, or the `ConversionError` of an integer
-- that fits in no int64.
pub data Parsed {ℓ} (A : Type ℓ) : Type ℓ where
  parsed : A → Parsed A
  parse_error bad_number : Parsed A

pub Parsed-cases {ℓ} :
    {A : Type ℓ} (o : Parsed A) → ((a : A) × (o ≡ parsed a)) ⊎ (o ≡ parse_error) ⊎ (o ≡ bad_number)
Parsed-cases (parsed a) = inl (a, refl)
Parsed-cases parse_error = inr (inl refl)
Parsed-cases bad_number = inr (inr refl)

pub record Json : Type 1 where
  pub Dynamic : Type 0
  -- `folly::parseJson`
  pub parse_json : Bytes → Parsed Dynamic
  -- `folly::toJson`
  pub to_json : Dynamic → Bytes
  -- `d[key]` of a constant and of a variable, `get_ptr` and `isObject`
  pub get : Bytes → Dynamic → Caught Dynamic
  pub index : Bytes → Dynamic → Caught Dynamic
  pub get_ptr : Bytes → Dynamic → Option Dynamic
  pub is_object : Dynamic → Bool
  -- the string of a value that is one
  pub as_string : Dynamic → Option Bytes
  -- the number of a value that `isInt()` and is not negative
  pub as_natural : Dynamic → Option ℕ
  -- `folly::convertTo`
  pub to_text : Dynamic → Caught Bytes
  pub to_number : Dynamic → Caught ℕ
  pub to_texts : Dynamic → Caught (List Bytes)
  -- values made by the program
  pub text : Bytes → Dynamic
  pub number : ℕ → Dynamic
  pub array : List Dynamic → Dynamic
  pub object : List (Bytes × Dynamic) → Dynamic
  -- `==`
  pub same : Dynamic → Dynamic → Bool
  -- a string is one
  pub as_string-text : (s : Bytes) → as_string (text s) ≡ some s
