-- ===== src/Tests/Passports.antt =====
-- A passport that is made and verified.
use lnr_high_performance.Base.{
  ◌<◌, ◌^◌, arith, List, Bytes, ◌≡◌, refl, inl, true, false, [], ◌∷◌, done, no_fuel, ltb,
}
use lnr_high_performance.Stir.Json.{Json}
use lnr_high_performance.Stir.Passed.{IsGenuine, verify_passport-passed}
use lnr_high_performance.Stir.Passport.{x5u_text, make_passport, sort, before, insert_text}
use lnr_high_performance.Stir.Documents.{
  print, header_document, payload_document, to_dynamic, Parses,
}
use lnr_high_performance.Stir.Signed.{make_passport-verify_passport}
use lnr_high_performance.Stir.Types.{SigningRequest, VerificationRequest, VerificationResponse}
use lnr_high_performance.Stir.Identity.{drift, response, tn_validation_passed, Identity}
use lnr_high_performance.Stir.Verify.{verify_passport}
use lnr_high_performance.Tests.Documents.{
  Value, text, number, object, members_of, documents, text_array, finds, show,
}
use lnr_high_performance.Tests.Tools.{pieces, shifting, padding}
use lnr_high_performance.Text.{codes, same_text}

abbrev call_to_sign : SigningRequest
call_to_sign = record {
  attest = codes "A";
  dest = codes "5552" ∷ codes "5551" ∷ [];
  iat = 1000;
  orig = codes "5550";
  origid = codes "8d7b";
}

abbrev header_value : Value
header_value = object (
    members_of (
      (codes "alg", text (codes "ES256"))
      ∷ (codes "ppt", text (codes "shaken"))
      ∷ (codes "typ", text (codes "passport"))
      ∷ (codes "x5u", text x5u_text)
      ∷ []))

abbrev numbers_value : Value → Value
numbers_value v = object (members_of ((codes "tn", v) ∷ []))

abbrev payload_value : Value
payload_value = object (
    members_of (
      (codes "attest", text (codes "A"))
      ∷ (codes "dest", numbers_value (text_array (codes "5551" ∷ codes "5552" ∷ [])))
      ∷ (codes "iat", number 1000)
      ∷ (codes "orig", numbers_value (text (codes "5550")))
      ∷ (codes "origid", text (codes "8d7b"))
      ∷ []))

abbrev known : List (Bytes × Value)
known =
    (print show header_document [], header_value)
    ∷ (print show (payload_document call_to_sign) [], payload_value)
    ∷ []

abbrev parser : Json
parser = documents known

header-Parses : Parses parser show header_document
unfolding print to_dynamic same_text
header-Parses = refl

payload-Parses : Parses parser show (payload_document call_to_sign)
unfolding print to_dynamic same_text sort insert_text before
payload-Parses = refl

fits : 1000 < 2 ^ 63
fits = omega arith

near : ltb 60 (drift 1010 1020) ≡ false
unfolding drift
near = refl

near_iat : ltb 60 (drift 1000 1010) ≡ false
unfolding drift
near_iat = refl

abbrev call_to_verify : VerificationRequest
call_to_verify = record {
  identity = make_passport shifting padding show call_to_sign;
  to = sort call_to_sign.dest;
  from = codes "5550";
  time = 1010;
}

make_passport-verify_passport_example :
    verify_passport shifting padding parser pieces (λ s. true) text_array 60 1020 call_to_verify
    ≡ done (response 0 tn_validation_passed [] [])
make_passport-verify_passport_example =
    make_passport-verify_passport shifting padding parser pieces (λ s. true) text_array 60 show
      call_to_sign 1020 1010 refl (inl refl) refl fits near near_iat (finds known) header-Parses
      payload-Parses

verify_passport-passed_example :
    ¬ (
      verify_passport shifting padding parser pieces (λ s. true) text_array 60 1020 call_to_verify
      ≡ no_fuel)
    × ((r : VerificationResponse)
        → verify_passport shifting padding parser pieces
            (λ s. true)
            text_array
            60
            1020
            call_to_verify
          ≡ done r
        → r.ver_stat ≡ tn_validation_passed
        → (identity : Identity) × IsGenuine shifting padding parser pieces
            (λ s. true)
            text_array
            60
            1020
            call_to_verify
            identity)
verify_passport-passed_example =
    verify_passport-passed shifting padding parser pieces (λ s. true) text_array 60 1020
      call_to_verify
