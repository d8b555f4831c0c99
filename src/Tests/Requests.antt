-- ===== src/Tests/Requests.antt =====
-- Requests to the STIR server, what they are answered, and errors.
use lnr_high_performance.Base.{
  ℕ, ◌≡◌, ◌↔◌, ◌⊎◌, refl, Bool, ◌≢◌, true, false, some, List, [], ◌∷◌, ◌++◌, Bytes, Run, done,
  fault, ◌==◌, ne→==_false,
}
use lnr_high_performance.Stir.Accepted.{AcceptsSigning, AcceptsVerification, from_json_iff}
use lnr_high_performance.Stir.Answers.{answer, handle-answer}
use lnr_high_performance.Stir.Errors.{
  no_error, StirApiError, error_of, http_status, svc_invalid_parameter_value,
}
use lnr_high_performance.Stir.Handler.{
  sign, is_json_type, length_of, accept_value, is_acceptable, Header, content_length, content_type,
  accept, other, new_visitor, visit_all, new_handler, on_request, on_bodies, on_eom,
}
use lnr_high_performance.Stir.Json.{Json, bad_number}
use lnr_high_performance.Stir.Replies.{
  serve, decide, decide_endpoint, any_json, last_length, last_refused, id_of,
}
use lnr_high_performance.Reverse.Body.{concat}
use lnr_high_performance.Stir.Passport.{make_passport}
use lnr_high_performance.Stir.Types.{
  from_json, checked, read_param, visit_signing, validate_signing, validate_tn, all_of,
  accepted_char, c_str, SigningRequest, VerificationRequest, VerificationResponse, expected,
  unexpected, signing_from_json, verification_from_json,
}
use lnr_high_performance.Stir.Variables.{NoTab, SplitsTabs, Report, put_all, error_to_body-put_all}
use lnr_high_performance.Tests.Concrete.{plain, split, to_uint64}
use lnr_high_performance.Tests.Documents.{
  Value, text, number, object, members_of, documents, text_array, show, find,
}
use lnr_high_performance.Tests.Tools.{pieces, shifting, padding}
use lnr_high_performance.Text.{codes, same_text}

abbrev signing_body : Bytes
signing_body = codes "{\"signingRequest\":{...}}"

abbrev numbers_document : Value → Value
numbers_document v = object (members_of ((codes "tn", v) ∷ []))

abbrev signing_document : Value
signing_document = object (
    members_of (
      (
        codes "signingRequest",
        object (
            members_of (
              (codes "attest", text (codes "B"))
              ∷ (codes "dest", numbers_document (text_array (codes "5551" ∷ [])))
              ∷ (codes "orig", numbers_document (text (codes "5550")))
              ∷ (codes "origid", text (codes "8d7b"))
              ∷ (codes "iat", number 1000)
              ∷ [])),
      )
      ∷ []))

abbrev parser : Json
parser = documents ((signing_body, signing_document) ∷ [])

from_json_iff_example :
    ((m : SigningRequest)
      → (signing_from_json parser (λ s. true) (parser.text signing_body) ≡ done (expected m))
        ↔ AcceptsSigning parser (λ s. true) signing_body m)
    × ((m : VerificationRequest)
        → (verification_from_json parser (parser.text signing_body) ≡ done (expected m))
          ↔ AcceptsVerification parser (λ s. true) signing_body m)
    × ((e : StirApiError)
        → (signing_from_json parser (λ s. true) (parser.text signing_body) ≡ done (unexpected e))
          ⊎ (verification_from_json parser (parser.text signing_body) ≡ done (unexpected e))
        → http_status e ≡ done 400)
    × ((signing_from_json parser (λ s. true) (parser.text signing_body) ≡ fault)
        ↔ (parser.parse_json signing_body ≡ bad_number))
    × ((verification_from_json parser (parser.text signing_body) ≡ fault)
        ↔ (parser.parse_json signing_body ≡ bad_number))
from_json_iff_example = from_json_iff parser (λ s. true) signing_body

read_signing :
    signing_from_json parser (λ s. true) (parser.text signing_body)
    ≡ done (
        expected (record {
          attest = codes "B";
          dest = codes "5551" ∷ [];
          iat = 1000;
          orig = codes "5550";
          origid = codes "8d7b";
        }))
unfolding signing_from_json from_json checked read_param visit_signing validate_signing validate_tn
    all_of accepted_char c_str no_error find same_text
read_signing = refl

tab_differs : (c : ℕ) → c ≢ b'\t' → (c == b'\t') ≡ false
tab_differs c h = ne→==_false c b'\t' h

split-whole : (a : Bytes) → NoTab a → split b'\t' a ≡ a ∷ []
split-whole [] h = refl
split-whole (c ∷ a) h = rw (tab_differs c h.0, split-whole a h.1) refl

split-first : (a b : Bytes) → NoTab a → split b'\t' (a ++ b'\t' ∷ b) ≡ a ∷ split b'\t' b
split-first [] b h = refl
split-first (c ∷ a) b h = rw (tab_differs c h.0, split-first a b h.1) refl

splits_tabs : SplitsTabs plain
splits_tabs = record { whole = split-whole; first = split-first }

no_tab : NoTab (codes "to")
no_tab = (cc, (cc, tt))

error_to_body-put_all_example :
    Report parser plain svc_invalid_parameter_value
      (codes "to" ∷ [] ∷ codes "to" ∷ [])
      (put_all (codes "to" ∷ [] ∷ codes "to" ∷ []) (error_of svc_invalid_parameter_value))
error_to_body-put_all_example =
    error_to_body-put_all parser plain splits_tabs svc_invalid_parameter_value b't' (codes "o")
      ([] ∷ codes "to" ∷ []) no_tab (tt, (no_tab, tt))

abbrev headers : List Header
headers =
    content_type (codes "application/json; charset=utf-8")
    ∷ other (codes "X-RequestID") (codes "17")
    ∷ content_length (codes "22")
    ∷ accept (codes "*/*")
    ∷ []

abbrev none_passes : VerificationRequest → Run VerificationResponse
none_passes request =
    done (record { reason_code = 438; ver_stat = []; reason_text = []; reason_desc = [] })

abbrev is_id : Bytes → Bool
is_id = same_text (codes "X-RequestID")

handle-answer_example :
    on_eom parser plain
      (λ s. true)
      (make_passport shifting padding show)
      none_passes
      (on_bodies (codes "{\"signing" ∷ codes "Request\":{...}}" ∷ []) (
        on_request 65536
          (codes "8d7b")
          true
          (codes "/stir/v1/signing")
          (visit_all pieces (λ s. some s) to_uint64 is_id headers new_visitor)
          new_handler))
    ≡ answer parser plain
        (λ s. true)
        (make_passport shifting padding show)
        none_passes
        (decide pieces (λ s. some s) to_uint64 is_id 65536 true (codes "/stir/v1/signing") headers)
        (id_of pieces (λ s. some s) to_uint64 is_id (codes "8d7b") headers)
        (concat (codes "{\"signing" ∷ codes "Request\":{...}}" ∷ []))
handle-answer_example =
    handle-answer parser plain (λ s. true) (make_passport shifting padding show) none_passes pieces
      (λ s. some s) to_uint64 is_id 65536 (codes "8d7b") true (codes "/stir/v1/signing") headers
      (codes "{\"signing" ∷ codes "Request\":{...}}" ∷ [])

-- the request is served
decided :
    decide pieces (λ s. some s) to_uint64 is_id 65536 true (codes "/stir/v1/signing") headers
    ≡ serve sign
unfolding decide decide_endpoint any_json last_length last_refused is_json_type length_of
    accept_value is_acceptable same_text
decided = refl
