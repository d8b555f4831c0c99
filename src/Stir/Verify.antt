-- ===== src/Stir/Verify.antt =====
-- The checks of `verifyPassport` of stir/Passport.cpp in their order, each with its early return.
-- The texts of the source are UTF-8. `now` is the clock and `period` the flag `valid_iat_period`;
-- `range_array` is the value that `dynamic::array(folly::range(..))` makes of a list of texts.
use lnr_high_performance.Base.{
  ℕ, Bool, false, not, ◌||◌, Option, none, some, List, [], ◌∷◌, ◌++◌, ltb, ◌==◌, is_some,
  if◌then◌else◌, length, take, drop, Bytes, Run,
}
use lnr_high_performance.Stir.Checked.{
  Checked, go_on, ◌then◌, unless, lift, or_respond, or_refuse, result, all_checks,
}
use lnr_high_performance.Stir.Errors.{closing}
use lnr_high_performance.Stir.Json.{Json}
use lnr_high_performance.Stir.Passport.{Base64, Signer, signing_string}
use lnr_high_performance.Stir.Pieces.{Pieces}
use lnr_high_performance.Stir.Types.{VerificationRequest, VerificationResponse}
use lnr_high_performance.Text.{codes}
use lnr_high_performance.Stir.Identity.{
  tn_validation_failed, tn_validation_passed, response, stale_date, invalid_identity,
  bad_identity_info, unsupported_credential, drift, Identity, read_identity,
}

module _ (J : Json) where
  -- `d[key] != s`
  abbrev pub require : Bytes → J.Dynamic → J.Dynamic → VerificationResponse → Checked Unit
  require key d want r = lift (J.index key d) then λ (v : J.Dynamic). unless (not (J.same v want)) r

  abbrev pub require_key : J.Dynamic → Bytes → VerificationResponse → Checked Unit
  require_key d key r = unless (not (is_some (J.get_ptr key d))) r

  abbrev pub missing_header : Bytes → VerificationResponse
  missing_header key =
      bad_identity_info (codes "Missing '" ++ (key ++ codes "' claim in the PASSporT header."))

  abbrev pub missing_payload : Bytes → VerificationResponse
  missing_payload key =
      invalid_identity (codes "Missing '" ++ (key ++ codes "' mandatory claim in PASSporT payload"))

  unfoldable pub header_checks : Bytes → J.Dynamic → List (Checked Unit)
  header_checks info d =
      unless (not (J.is_object d))
        (bad_identity_info (codes "PASSporT header is not a JSON object."))
      ∷ require_key d (codes "ppt") (missing_header (codes "ppt"))
      ∷ require_key d (codes "typ") (missing_header (codes "typ"))
      ∷ require_key d (codes "alg") (missing_header (codes "alg"))
      ∷ require_key d (codes "x5u") (missing_header (codes "x5u"))
      ∷ require (codes "typ") d (J.text (codes "passport"))
          (unsupported_credential false (codes "'typ' from PASSporT header is not 'passport'."))
      ∷ require (codes "alg") d (J.text (codes "ES256"))
          (unsupported_credential false (codes "'alg' from PASSporT header is not 'ES256'."))
      ∷ require (codes "x5u") d (J.text info) (
          bad_identity_info (
            codes "'x5u' from PASSporT header doesn"
            ++ (closing ++ codes "t match the 'info' parameter of identity header value.")))
      ∷ require (codes "ppt") d (J.text (codes "shaken"))
          (invalid_identity (codes "'ppt' from PASSporT header is not 'shaken'"))
      ∷ []

  -- the first portion, decoded and read
  unfoldable pub check_header : Bytes → Bytes → Checked Unit
  check_header info text =
      or_refuse (J.parse_json text) (bad_identity_info (codes "Unable to decode PASSporT header."))
      then λ (d : J.Dynamic). all_checks (header_checks info d)

  abbrev pub mismatch : Bytes → VerificationResponse
  mismatch claim = invalid_identity (
      codes "'"
      ++ (claim
          ++ (codes "' claim from PASSporT payload doesn"
              ++ (closing ++ codes "t match the received in the verification request claim."))))

  -- `d[key]["tn"] != v`
  abbrev pub require_tn : Bytes → J.Dynamic → J.Dynamic → Checked Unit
  require_tn key d want =
      lift (J.index key d) then λ (v : J.Dynamic). require (codes "tn") v want (mismatch key)

  unfoldable pub is_attestation : J.Dynamic → Bool
  is_attestation v =
      J.same v (J.text (codes "A"))
      || (J.same v (J.text (codes "B")) || J.same v (J.text (codes "C")))

  -- `payload["iat"]`, where it is an integer that is not negative
  unfoldable pub read_iat : J.Dynamic → Checked ℕ
  read_iat d = lift (J.index (codes "iat") d) then λ (v : J.Dynamic).
      or_respond (J.as_natural v)
        (invalid_identity (codes "Bad 'iat' claim value in PASSporT payload"))

  unfoldable pub check_iat : ℕ → ℕ → J.Dynamic → Checked Unit
  check_iat period time d = read_iat d then λ (iat : ℕ).
      unless (ltb period (drift iat time))
        (stale_date (codes "'iat' from PASSporT payload is not fresh."))

  unfoldable pub check_attest : J.Dynamic → Checked Unit
  check_attest d = lift (J.index (codes "attest") d) then λ (attest : J.Dynamic).
      unless (not (is_attestation attest))
        (invalid_identity (codes "'attest' claim in PASSporT payload is not valid."))

  unfoldable pub payload_checks :
      (List Bytes → J.Dynamic) → ℕ → VerificationRequest → J.Dynamic → List (Checked Unit)
  payload_checks range_array period request d =
      unless (not (J.is_object d))
        (bad_identity_info (codes "PASSporT payload is not a JSON object."))
      ∷ require_key d (codes "dest") (missing_payload (codes "dest"))
      ∷ require_key d (codes "orig") (missing_payload (codes "orig"))
      ∷ require_key d (codes "attest") (missing_payload (codes "attest"))
      ∷ require_key d (codes "origid") (missing_payload (codes "origid"))
      ∷ require_key d (codes "iat") (missing_payload (codes "iat"))
      ∷ check_iat period request.time d
      ∷ check_attest d
      ∷ require_tn (codes "orig") d (J.text request.from)
      ∷ require_tn (codes "dest") d (range_array request.to)
      ∷ []

  -- the second portion
  unfoldable pub check_payload :
      (List Bytes → J.Dynamic) → ℕ → VerificationRequest → Bytes → Checked Unit
  check_payload range_array period request text =
      or_refuse (J.parse_json text) (bad_identity_info (codes "Unable to decode PASSporT payload."))
      then λ (d : J.Dynamic). all_checks (payload_checks range_array period request d)

module _ (B : Base64) (S : Signer) where
  -- the two numbers of a signature of 64 bytes
  unfoldable pub numbers_of : Bytes → Option (Bytes × Bytes)
  numbers_of s = if length s == 64 then some (take 32 s, take 32 (drop 32 s)) else none

  -- the portions as they were decoded are encoded again
  unfoldable pub check_signature : Bytes → Bytes → Bytes → VerificationResponse
  check_signature header payload signature =
      if S.is_signature (S.sha256 (signing_string B header payload))
        (numbers_of (B.decode signature))
      then response 0 tn_validation_passed [] []
      else response 438 tn_validation_failed (codes "Invalid Identity Header")
          (codes "Signature validation failed.")

  module _ (J : Json) (P : Pieces) (is_uri : Bytes → Bool) (range_array : List Bytes → J.Dynamic)
      (period : ℕ) where
    -- `verifyPassport`
    unfoldable pub verify_checks : ℕ → VerificationRequest → Checked VerificationResponse
    verify_checks now request =
        unless (ltb period (drift request.time now))
          (stale_date (codes "Received 'time' value is not fresh."))
        then λ (u : Unit). read_identity P is_uri request.identity then λ (identity : Identity).
            check_header J identity.info (B.decode identity.header) then λ (u : Unit).
            check_payload J range_array period request (B.decode identity.payload)
            then λ (u : Unit). go_on (
                check_signature (B.decode identity.header) (B.decode identity.payload)
                  identity.signature)

    unfoldable pub verify_passport : ℕ → VerificationRequest → Run VerificationResponse
    verify_passport now request = result (verify_checks now request)
