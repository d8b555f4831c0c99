-- ===== src/Stir/Signed.antt =====
-- A passport of `makePassport` of stir/Passport.cpp passes the checks of `verifyPassport`.
use lnr_high_performance.Base.{
  ◌<◌, ◌^◌, ℕ, ◌≡◌, refl, sym, ap, ◌∙◌, Bool, true, false, List, [], ◌∷◌, ◌++◌, ltb, is_empty,
  Bytes, done,
}
use lnr_high_performance.Stir.Documents.{header_document, payload_document, Finds, Parses}
use lnr_high_performance.Stir.Written.{header-ReadsHeader, payload-ReadsPayload}
use lnr_high_performance.Stir.Checked.{go_on, all_checks}
use lnr_high_performance.Stir.Json.{Json}
use lnr_high_performance.Stir.Passport.{
  Base64, Signer, x5u_text, header_text, payload_text, signing_string, make_passport, sort,
}
use lnr_high_performance.Stir.Pieces.{Pieces}
use lnr_high_performance.Stir.Portions.{portions_lem, read_info_lem}
use lnr_high_performance.Stir.Types.{SigningRequest}
use lnr_high_performance.Stir.Identity.{
  tn_validation_passed, response, drift, read_identity, identity_checks, check_params,
}
use lnr_high_performance.Stir.Verify.{verify_checks, verify_passport}
use lnr_high_performance.Text.{codes}
use lnr_high_performance.Stir.Reads.{
  check_header_lem, check_payload_lem, check_signature_lem, IsAttestation,
}

module _ (B : Base64) (S : Signer) (J : Json) (P : Pieces) (is_uri : Bytes → Bool)
    (range_array : List Bytes → J.Dynamic) (period : ℕ) where
  encoded : (t : Bytes) → B.encode header_text ≡ t → is_empty t ≡ false
  unfolding header_text
  encoded [] h =
      let none_left : header_text ≡ [] =
        sym (B.decode-encode header_text)
        ∙ ap B.decode (h ∙ sym B.encode_empty)
        ∙ B.decode-encode [] in
      ap is_empty (sym none_left)
  encoded (c ∷ t) h = refl

  header_nonempty : is_empty (B.encode header_text) ≡ false
  header_nonempty = encoded (B.encode header_text) refl

  read_identity_lem :
      (show : ℕ → Bytes) (req : SigningRequest)
      → is_uri x5u_text ≡ true
      → (let (r, s) = S.sign (S.sha256 (signing_string B header_text (payload_text show req))) in
          read_identity P is_uri (make_passport B S show req)
          ≡ go_on (record {
            header = B.encode header_text;
            payload = B.encode (payload_text show req);
            signature = B.encode (r ++ s);
            info = x5u_text;
          }))
  unfolding read_identity identity_checks make_passport signing_string all_checks check_params
  read_identity_lem show req uri =
      let payload = payload_text show req in
      let (r, s) = S.sign (S.sha256 (signing_string B header_text payload)) in
      let parts =
        portions_lem P is_uri (B.encode header_text) (B.encode payload) (B.encode (r ++ s))
          (codes "info=<" ++ (x5u_text ++ codes ">")) (B.encode-InPortion header_text)
          (B.encode-InPortion payload) (B.encode-InPortion (r ++ s)) in
      rw (parts, read_info_lem P is_uri, header_nonempty, uri) refl

  -- A passport that the program makes for a request passes its own verification, where its time is
  -- within the period of the clock and of the "iat" of the request: the verification of the call
  -- from "orig" to the sorted "dest" reports TN-Validation-Passed. The request has an attestation
  -- of A, B or C, a destination and an "iat" that fits in an int64, `folly::Uri` takes the address
  -- of the certificate, and the parser reads the compact JSON of the header and of the claims of
  -- this request as these documents, which no text with a quote in it allows.
  pub make_passport-verify_passport :
      (show : ℕ → Bytes) (req : SigningRequest) (now time : ℕ)
      → is_uri x5u_text ≡ true
      → IsAttestation J req.attest
      → is_empty req.dest ≡ false
      → req.iat < 2 ^ 63
      → ltb period (drift time now) ≡ false
      → ltb period (drift req.iat time) ≡ false
      → Finds J range_array
      → Parses J show header_document
      → Parses J show (payload_document req)
      → verify_passport B S J P is_uri range_array period now (record {
        identity = make_passport B S show req;
        to = sort req.dest;
        from = req.orig;
        time = time;
      })
        ≡ done (response 0 tn_validation_passed [] [])
  unfolding verify_passport verify_checks
  make_passport-verify_passport show req now time uri attested full fits fresh fresh_iat finds
        header payload =
      rw
        (
          fresh,
          read_identity_lem show req uri,
          B.decode-encode header_text,
          B.decode-encode (payload_text show req),
          check_header_lem J (header-ReadsHeader J range_array finds show header),
          check_payload_lem J range_array show req (make_passport B S show req) period time attested
              fresh_iat (payload-ReadsPayload J range_array finds show req full fits payload),
          check_signature_lem B S header_text (payload_text show req),
        )
        refl
