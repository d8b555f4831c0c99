-- ===== src/Stir/Written.antt =====
-- The texts of the header and the payload that stir/Passport.cpp writes are the JSON of a passport.
use lnr_high_performance.Base.{ℕ, ◌^◌, ◌<◌, ◌≡◌, refl, false, ap, ◌∙◌, List, Bytes, is_empty}
use lnr_high_performance.Stir.Documents.{
  header_document, payload_document, header_text-print, payload_text-print, Finds, Parses,
  to_dynamic,
}
use lnr_high_performance.Stir.Json.{Json}
use lnr_high_performance.Stir.Passport.{sort}
use lnr_high_performance.Stir.Reads.{ReadsHeader, ReadsPayload}
use lnr_high_performance.Stir.Types.{SigningRequest}
use lnr_high_performance.Text.{codes, same_text}

module _ (J : Json) (range_array : List Bytes → J.Dynamic) (L : Finds J range_array) where
  pub header-ReadsHeader : (show : ℕ → Bytes) → Parses J show header_document → ReadsHeader J
  unfolding to_dynamic same_text
  header-ReadsHeader show parses = (
    to_dynamic J header_document,
    ap J.parse_json (header_text-print show) ∙ parses,
    L.is_object-object _,
    (_, L.member-object (codes "alg") _ _ refl refl, L.same-text _),
    (_, L.member-object (codes "ppt") _ _ refl refl, L.same-text _),
    (_, L.member-object (codes "typ") _ _ refl refl, L.same-text _),
    (_, L.member-object (codes "x5u") _ _ refl refl, L.same-text _),
  )

  pub payload-ReadsPayload :
      (show : ℕ → Bytes) (req : SigningRequest)
      → is_empty req.dest ≡ false
      → req.iat < 2 ^ 63
      → Parses J show (payload_document req)
      → ReadsPayload J range_array show req
  unfolding to_dynamic same_text
  payload-ReadsPayload show req full fits parses = (
    to_dynamic J (payload_document req),
    ap J.parse_json (payload_text-print show req full) ∙ parses,
    L.is_object-object _,
    (_, L.member-object (codes "attest") _ _ refl refl, L.same-text req.attest),
    (
      _,
      _,
      L.member-object (codes "dest") _ _ refl refl,
      (L.member-object (codes "tn") _ _ refl refl).1,
      L.same-texts (sort req.dest),
    ),
    (_, L.member-object (codes "iat") _ _ refl refl, L.as_natural-number req.iat fits),
    (
      _,
      _,
      L.member-object (codes "orig") _ _ refl refl,
      (L.member-object (codes "tn") _ _ refl refl).1,
      L.same-text req.orig,
    ),
    (_, L.member-object (codes "origid") _ _ refl refl),
  )
