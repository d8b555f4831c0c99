-- ===== src/Tests/Tools.antt =====
-- Text pieces, an encoding and a signature that make the parameters of the STIR server concrete.
use lnr_high_performance.Base.{
  ℕ, zero, suc, arith, ◌+◌, ◌-◌, ◌≡◌, refl, Bool, true, false, ◌&&◌, Option, none, some, [], ◌∷◌,
  ◌++◌, map, ◌==◌, ne→==_false, ==_refl, length, drop, All, if◌then◌else◌, Bytes,
}
use lnr_high_performance.Stir.Passport.{InPortion, Base64, Signer}
use lnr_high_performance.Stir.Pieces.{Pieces, Without}
use lnr_high_performance.Tests.Concrete.{plain, ltrim}
use lnr_high_performance.Text.Laws.{same_text_self}
use lnr_high_performance.Text.{same_text}
use lnr_high_performance.Vendor.{is_blank}

abbrev push : ℕ → Bytes × Bytes → Bytes × Bytes
push c (a, b) = (c ∷ a, b)

abbrev split_step : ℕ → Bytes → Bytes × Bytes
split_step sep [] = ([], [])
split_step sep (c ∷ s) = let rest = split_step sep s in if c == sep then ([], s) else push c rest

pub split_step-found :
    (sep : ℕ) (a b : Bytes) → Without sep a → split_step sep (a ++ sep ∷ b) ≡ (a, b)
split_step-found sep [] b h = rw (==_refl sep) refl
split_step-found sep (c ∷ a) b h = rw (ne→==_false c sep h.0, split_step-found sep a b h.1) refl

pub split_step-missing : (sep : ℕ) (a : Bytes) → Without sep a → split_step sep a ≡ (a, [])
split_step-missing sep [] h = refl
split_step-missing sep (c ∷ a) h = rw (ne→==_false c sep h.0, split_step-missing sep a h.1) refl

pub ltrim-solid : (c : ℕ) (s : Bytes) → is_blank c ≡ false → ltrim (c ∷ s) ≡ c ∷ s
ltrim-solid c s h = rw h refl

abbrev pub pieces : Pieces
pieces = record {
  split_step = split_step;
  trim = plain.trim_whitespace;
  ltrim = ltrim;
  split_step-found = split_step-found;
  split_step_missing = split_step-missing;
  trim-solid = plain.trim_whitespace-solid;
  ltrim-solid = ltrim-solid;
}

-- each byte is moved behind the characters that set portions apart
abbrev shift : Bytes → Bytes
shift s = map (λ c. c + 60) s

abbrev unshift : Bytes → Bytes
unshift s = map (λ c. c - 60) s

pub unshift-shift : (s : Bytes) → unshift (shift s) ≡ s
unshift-shift [] = refl
unshift-shift (c ∷ s) =
    let back : (c + 60) - 60 ≡ c = omega arith in rw (back, unshift-shift s) refl

shifted : (c : ℕ) → InPortion (c + 60)
shifted c = (ground arith, omega arith, omega arith)

pub shift-InPortion : (s : Bytes) → All InPortion (shift s)
shift-InPortion [] = tt
shift-InPortion (c ∷ s) = (shifted c, shift-InPortion s)

abbrev pub shifting : Base64
shifting = record {
  encode = shift;
  decode = unshift;
  decode-encode = unshift-shift;
  encode-InPortion = shift-InPortion;
  encode_empty = refl;
}

-- the first bytes of a text, with zeros behind it
abbrev pad : ℕ → Bytes → Bytes
pad zero s = []
pad (suc n) [] = 0 ∷ pad n []
pad (suc n) (c ∷ s) = c ∷ pad n s

pub length-pad : (n : ℕ) (s : Bytes) → length (pad n s) ≡ n
length-pad zero s = refl
length-pad (suc n) [] = omega (arith, length-pad n [])
length-pad (suc n) (c ∷ s) = omega (arith, length-pad n s)

abbrev signed_as : Bytes → Option (Bytes × Bytes) → Bool
signed_as d none = false
signed_as d (some (r, s)) = same_text r (pad 32 d) && same_text s (pad 32 (drop 32 d))

pub signed_as_self : (d : Bytes) → signed_as d (some (pad 32 d, pad 32 (drop 32 d))) ≡ true
signed_as_self d = rw (same_text_self (pad 32 d), same_text_self (pad 32 (drop 32 d))) refl

abbrev pub padding : Signer
padding = record {
  sha256 = λ s. pad 32 (drop 200 s) ++ pad 32 (drop 300 s);
  sign = λ d. (pad 32 d, pad 32 (drop 32 d));
  is_signature = signed_as;
  length-sign = λ d. (length-pad 32 d, length-pad 32 (drop 32 d));
  is_signature-sign = signed_as_self;
}
