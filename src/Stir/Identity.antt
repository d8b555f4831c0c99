-- ===== src/Stir/Identity.antt =====
-- The responses of `verifyPassport` of stir/Passport.cpp, and how it takes an Identity header apart.
-- `is_uri` says whether `folly::Uri` takes a text.
use lnr_high_performance.Base.{
  ℕ, zero, suc, ◌-◌, Bool, not, ◌&&◌, List, [], ◌∷◌, ltb, ◌==◌, is_empty, if◌then◌else◌, length,
  Bytes,
}
use lnr_high_performance.Stir.Checked.{Checked, go_on, cut_off, ◌then◌, unless, all_checks}
use lnr_high_performance.Stir.Pieces.{Pieces}
use lnr_high_performance.Stir.Types.{VerificationResponse}
use lnr_high_performance.Text.{codes, same_text}

abbrev pub no_tn_validation : Bytes
no_tn_validation = codes "No-TN-Validation"

abbrev pub tn_validation_failed : Bytes
tn_validation_failed = codes "TN-Validation-Failed"

abbrev pub tn_validation_passed : Bytes
tn_validation_passed = codes "TN-Validation-Passed"

abbrev pub response : ℕ → Bytes → Bytes → Bytes → VerificationResponse
response code stat text desc = record {
  reason_code = code;
  ver_stat = stat;
  reason_text = text;
  reason_desc = desc;
}

-- `VF_STALE_DATE` and the functions behind it
unfoldable pub stale_date : Bytes → VerificationResponse
stale_date desc = response 403 no_tn_validation (codes "Stale Date") desc

unfoldable pub invalid_identity : Bytes → VerificationResponse
invalid_identity desc = response 438 no_tn_validation (codes "Invalid Identity Header") desc

unfoldable pub bad_identity_info : Bytes → VerificationResponse
bad_identity_info desc = response 436 no_tn_validation (codes "Bad identity Info") desc

unfoldable pub unsupported_credential : Bool → Bytes → VerificationResponse
unsupported_credential fail desc =
    response 437 (if fail then tn_validation_failed else no_tn_validation)
      (codes "Unsupported credential") desc

-- the distance of two times
unfoldable pub drift : ℕ → ℕ → ℕ
drift a b = if ltb b a then a - b else b - a

-- what the Identity header holds
pub record Identity : Type 0 where
  pub header : Bytes
  pub payload : Bytes
  pub signature : Bytes
  pub info : Bytes

module _ (P : Pieces) (is_uri : Bytes → Bool) where
  -- what is behind `info=<` up to `>`, and the rest of the header
  unfoldable pub read_info : Bytes → Bytes × Bytes
  read_info s =
      let (name, rest) = P.split_step b'=' s in
      if same_text name (codes "info")
      then elim (P.ltrim rest) [
        | [] ↦ ([], [])
        | c ∷ more ↦
            if c == b'<'
            then (P.trim (P.split_step b'>' more).0, (P.split_step b'>' more).1)
            else ([], c ∷ more)
      ]
      else ([], rest)

  -- a `ppt` is "shaken"
  unfoldable pub check_param : Bytes → Bytes → Checked Unit
  check_param param value =
      unless
        (same_text (P.trim param) (codes "ppt") && not (same_text (P.trim value) (codes "shaken")))
        (invalid_identity
          (codes "Identity header is received with 'ppt' parameter value that is not 'shaken'."))

  -- the parameters behind it
  unfoldable pub check_params : ℕ → Bytes → Checked Unit
  check_params fuel [] = go_on tt
  check_params zero (c ∷ s) = cut_off
  check_params (suc fuel) (c ∷ s) =
      let (param, behind) = P.split_step b'=' (c ∷ s) in
      let (value, rest) = P.split_step b';' behind in
      check_param param value then λ (u : Unit). check_params fuel rest

  -- the three portions of the digest, and what is behind it
  unfoldable pub portions : Bytes → Bytes × Bytes × Bytes × Bytes
  portions text =
      let (digest, behind) = P.split_step b';' text in
      let (header, more) = P.split_step b'.' (P.trim digest) in
      let (payload, signature) = P.split_step b'.' more in (header, payload, signature, behind)

  unfoldable pub identity_checks : Bytes → Bytes → Bytes → Bytes → List (Checked Unit)
  identity_checks header payload info rest =
      unless (is_empty header && is_empty payload) (
        invalid_identity
          (codes "Identity header in compact form instead of required by SHAKEN spec full form."))
      ∷ unless (is_empty info)
          (bad_identity_info (codes "Missing 'info' parameter in the 'identity'."))
      ∷ unless (not (is_uri info)) (bad_identity_info (codes "Invalid 'info' URI."))
      ∷ check_params (length rest) rest
      ∷ []

  unfoldable pub read_identity : Bytes → Checked Identity
  read_identity text =
      let (header, payload, signature, behind) = portions text in
      let (info, rest) = read_info (P.ltrim behind) in
      all_checks (identity_checks header payload info rest) then λ (u : Unit).
      go_on (record { header = header; payload = payload; signature = signature; info = info })
