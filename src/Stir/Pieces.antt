-- ===== src/Stir/Pieces.antt =====
-- `StringPiece::split_step` and the trimming functions of folly: parameters of the model.
use lnr_high_performance.Base.{ℕ, ◌≡◌, ◌≢◌, false, [], ◌∷◌, ◌++◌, All, Bytes}
use lnr_high_performance.Vendor.{is_blank}

abbrev pub Without : ℕ → Bytes → Type 0
Without sep = All (λ c. c ≢ sep)

pub record Pieces : Type 0 where
  -- the text before the separator, and the text behind it
  pub split_step : ℕ → Bytes → Bytes × Bytes
  pub trim : Bytes → Bytes
  pub ltrim : Bytes → Bytes
  pub split_step-found :
      (sep : ℕ) (a b : Bytes) → Without sep a → split_step sep (a ++ sep ∷ b) ≡ (a, b)
  pub split_step_missing : (sep : ℕ) (a : Bytes) → Without sep a → split_step sep a ≡ (a, [])
  -- a text with no white space in it is left as it is, on the left also one that starts with none
  pub trim-solid : (s : Bytes) → All (λ c. is_blank c ≡ false) s → trim s ≡ s
  pub ltrim-solid : (c : ℕ) (s : Bytes) → is_blank c ≡ false → ltrim (c ∷ s) ≡ c ∷ s
