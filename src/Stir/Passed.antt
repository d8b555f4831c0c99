-- ===== src/Stir/Passed.antt =====
-- What a passport shows that passes the checks of stir/Passport.cpp.
use lnr_high_performance.Base.{
  ℕ, ◌≡◌, ap, ◌∙◌, Bool, true, false, inl, inr, List, ltb, Bool-cases, Bytes, done, no_fuel,
}
use lnr_high_performance.Stir.Checked.{go_on, unless, then-go_on, unless-go_on}
use lnr_high_performance.Stir.Json.{Json}
use lnr_high_performance.Stir.Passport.{Base64, Signer, signing_string}
use lnr_high_performance.Stir.Refusals.{
  failed_passed, Refuses, read_identity-Refuses, check_header-Refuses, check_payload-Refuses,
  unless-Refuses, then-Refuses, stale_passed,
}
use lnr_high_performance.Stir.Pieces.{Pieces}
use lnr_high_performance.Stir.Types.{VerificationRequest, VerificationResponse}
use lnr_high_performance.Stir.Identity.{tn_validation_passed, drift, Identity, read_identity}
use lnr_high_performance.Stir.Verify.{
  check_header, check_payload, numbers_of, check_signature, verify_checks, verify_passport,
}
use lnr_high_performance.Stir.Says.{
  check_header-IsHeader, check_payload-IsPayload, IsHeader, IsPayload, go_on_inj, result-ends,
  result-passed,
}

module _ (B : Base64) (S : Signer) (J : Json) (P : Pieces) (is_uri : Bytes → Bool)
    (range_array : List Bytes → J.Dynamic) (period : ℕ) where
  -- the identity is signed, and says what the request says
  abbrev pub IsGenuine : ℕ → VerificationRequest → Identity → Type 0
  IsGenuine now request identity =
      let header = B.decode identity.header in
      let payload = B.decode identity.payload in
      (read_identity P is_uri request.identity ≡ go_on identity)
      × (ltb period (drift request.time now) ≡ false)
      × IsHeader J identity.info header
      × IsPayload J range_array period request payload
      × (S.is_signature (S.sha256 (signing_string B header payload))
            (numbers_of B S (B.decode identity.signature))
          ≡ true)

  check_signature-passed :
      (header payload signature : Bytes)
      → (check_signature B S header payload signature).ver_stat ≡ tn_validation_passed
      → S.is_signature
          (S.sha256 (signing_string B header payload))
          (numbers_of B S (B.decode signature))
        ≡ true
  unfolding check_signature
  check_signature-passed header payload signature h =
      elim (Bool-cases (
        S.is_signature (S.sha256 (signing_string B header payload))
          (numbers_of B S (B.decode signature)))) [
            | inl good ↦ good
            | inr bad ↦ absurd (failed_passed (rw bad at h))
          ]

  verify_checks-Refuses :
      (now : ℕ) (request : VerificationRequest)
      → Refuses (verify_checks B S J P is_uri range_array period now request)
  unfolding verify_checks
  verify_checks-Refuses now request =
      then-Refuses (unless (ltb period (drift request.time now)) _) _
        (unless-Refuses _ _ (stale_passed _))
        (λ u.
          then-Refuses (read_identity P is_uri request.identity) _
            (read_identity-Refuses P is_uri request.identity)
            (λ identity.
              then-Refuses (check_header J identity.info (B.decode identity.header)) _
                (check_header-Refuses J identity.info (B.decode identity.header))
                (λ u'.
                  then-Refuses
                    (check_payload J range_array period request (B.decode identity.payload)) _
                    (check_payload-Refuses J range_array period request (B.decode identity.payload))
                    (λ u''. tt))))

  verify_checks-IsGenuine :
      (now : ℕ) (request : VerificationRequest) (r : VerificationResponse)
      → verify_checks B S J P is_uri range_array period now request ≡ go_on r
      → r.ver_stat ≡ tn_validation_passed
      → (identity : Identity) × IsGenuine now request identity
  unfolding verify_checks
  verify_checks-IsGenuine now request r h passed =
      let (u0, fresh, h1) = then-go_on (unless (ltb period (drift request.time now)) _) _ r h in
      let (identity, read, h2) = then-go_on (read_identity P is_uri request.identity) _ r h1 in
      let header = B.decode identity.header in
      let payload = B.decode identity.payload in
      let (u1, good_header, h3) = then-go_on (check_header J identity.info header) _ r h2 in
      let (u2, good_payload, h4) =
        then-go_on (check_payload J range_array period request payload) _ r h3 in
      let same : check_signature B S header payload identity.signature ≡ r = go_on_inj h4 in
      (
        identity,
        (
          read,
          unless-go_on _ _ u0 fresh,
          check_header-IsHeader J identity.info header u1 good_header,
          check_payload-IsPayload J range_array period request payload u2 good_payload,
          check_signature-passed header payload identity.signature
              (ap (λ x. x.ver_stat) same ∙ passed),
        ),
      )

  -- A verification comes to an end, and reports TN-Validation-Passed only where the identity is
  -- genuine: its parts are read from the text of the request, the time of the request is within
  -- the period of the clock, the header is one of a "shaken" passport signed with ES256 whose
  -- certificate is where the "info" parameter says, the payload has an "iat" within the period of
  -- the request's time, an attestation of A, B or C and the two sides of the call, and the
  -- signature is one of the two portions as they were decoded.
  pub verify_passport-passed :
      (now : ℕ) (request : VerificationRequest)
      → ¬ (verify_passport B S J P is_uri range_array period now request ≡ no_fuel)
        × ((r : VerificationResponse)
            → verify_passport B S J P is_uri range_array period now request ≡ done r
            → r.ver_stat ≡ tn_validation_passed
            → (identity : Identity) × IsGenuine now request identity)
  unfolding verify_passport
  verify_passport-passed now request =
      let checks = verify_checks B S J P is_uri range_array period now request in
      let refuses : Refuses checks = verify_checks-Refuses now request in
      (
        result-ends checks refuses,
        λ r h passed.
            verify_checks-IsGenuine now request r (result-passed checks r refuses h passed) passed,
      )
