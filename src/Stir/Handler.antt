-- ===== src/Stir/Handler.antt =====
-- `StirApiHeaderVisitor`, `StirApiHandler` and the factories of stir/StirApiHandler.cpp. proxygen's
-- reading of an Accept header, folly's `tryTo<uint32_t>` and the comparison of a header's name with
-- X-RequestID are parameters, and so are the functions of the passport and the flag of the limit.
use lnr_high_performance.Base.{
  ℕ, Bool, true, false, not, ◌&&◌, ◌||◌, Option, none, some, List, [], ◌∷◌, ◌++◌, leb, is_empty,
  if◌then◌else◌, Bytes, Run, done, fault, ◌>>=◌,
}
use lnr_high_performance.Stir.Errors.{
  StirApiError, no_error, error_of, is_error, put_variable, http_status, error_to_body,
  svc_not_acceptable_response_body_type, svc_unsupported_request_body_type, svc_missing_body_length,
  svc_failed_to_parse_msg_body, svc_resource_not_found, pol_method_not_allowed,
}
use lnr_high_performance.Stir.Json.{Json}
use lnr_high_performance.Stir.Pieces.{Pieces}
use lnr_high_performance.Stir.Types.{
  SigningRequest, VerificationRequest, VerificationResponse, Expected, expected, unexpected,
  signing_from_json, verification_from_json, signing_to_body, verification_to_body,
}
use lnr_high_performance.Text.{codes, same_text}
use lnr_high_performance.Vendor.{FollyText}

-- the headers that `visit` tells apart; `other` has its name
pub data Header : Type 0 where
  content_length content_type accept : Bytes → Header
  other : Bytes → Bytes → Header
  ignored : Header

-- `contentLength` is -1 until a header sets it
pub record Visitor : Type 0 where
  pub error : StirApiError
  pub request_id : Bytes
  pub length : Option ℕ
  pub json_input : Bool

unfoldable pub new_visitor : Visitor
new_visitor = record { error = no_error; request_id = []; length = none; json_input = false }

module _ (P : Pieces) (first_accepted : Bytes → Option Bytes) (to_uint32 : Bytes → Option ℕ)
    (is_request_id : Bytes → Bool) where
  -- `getHttpAcceptValue`
  unfoldable pub accept_value : Bytes → Bytes
  accept_value v = elim (first_accepted v) [ none ↦ [] | some token ↦ P.trim token ]

  unfoldable pub is_acceptable : Bytes → Bool
  is_acceptable token = same_text token (codes "application/json") || same_text token (codes "*/*")

  unfoldable pub is_json_type : Bytes → Bool
  is_json_type v = same_text (P.trim (P.split_step b';' v).0) (codes "application/json")

  unfoldable pub length_of : Bytes → ℕ
  length_of v = elim (to_uint32 v) [ none ↦ 0 | some n ↦ n ]

  -- `visit`
  unfoldable pub visit : Header → Visitor → Visitor
  visit (content_length v) r = record r { length = some (length_of v) }
  visit (content_type v) r = if is_json_type v then record r { json_input = true } else r
  visit (accept v) r = if is_acceptable (accept_value v) then r else record r {
    error = put_variable (accept_value v) (error_of svc_not_acceptable_response_body_type);
  }
  visit (other name v) r = if is_request_id name then record r { request_id = v } else r
  visit ignored r = r

  -- `forEachWithCode`
  unfoldable pub visit_all : List Header → Visitor → Visitor
  visit_all [] r = r
  visit_all (h ∷ hs) r = visit_all hs (visit h r)

-- `finalize`
unfoldable pub finalize : ℕ → Visitor → StirApiError
finalize limit r =
    if not r.json_input
    then put_variable (codes "application/json") (error_of svc_unsupported_request_body_type)
    else elim r.length [
      | none ↦ error_of svc_missing_body_length
      | some n ↦
          if leb limit n
          then put_variable (codes "invalid message body length specified")
              (error_of svc_failed_to_parse_msg_body)
          else r.error
    ]

pub data Endpoint : Type 0 where
  sign verify : Endpoint

-- `endpoint_` has no initializer
pub record Handler : Type 0 where
  pub request_id : Bytes
  pub endpoint : Option Endpoint
  pub error : StirApiError
  pub body : Bytes

unfoldable pub new_handler : Handler
new_handler = record { request_id = []; endpoint = none; error = no_error; body = [] }

-- the one response: its status, its X-RequestID and its body
pub record Response : Type 0 where
  pub status : ℕ
  pub request_id : Bytes
  pub body : Bytes

-- `onRequest`, given what the visitor found; `uuid` is the text that `uuid_unparse` writes, and
-- `resize(37)` keeps the zero behind it
unfoldable pub on_request : ℕ → Bytes → Bool → Bytes → Visitor → Handler → Handler
on_request limit uuid is_post path r h0 =
    let h = record h0 {
      request_id = if is_empty r.request_id then uuid ++ 0 ∷ [] else r.request_id;
    } in
    if not is_post
    then record h { error = error_of pol_method_not_allowed }
    else if same_text path (codes "/stir/v1/signing")
    then record h { endpoint = some sign; error = finalize limit r }
    else if same_text path (codes "/stir/v1/verification")
    then record h { endpoint = some verify; error = finalize limit r }
    else record h { error = error_of svc_resource_not_found }

unfoldable pub on_body : Bytes → Handler → Handler
on_body pkt h = if is_error h.error then h else record h { body = h.body ++ pkt }

unfoldable pub on_bodies : List Bytes → Handler → Handler
on_bodies [] h = h
on_bodies (b ∷ bs) h = on_bodies bs (on_body b h)

module _ (J : Json) (T : FollyText) (uuid_parse : Bytes → Bool) (make : SigningRequest → Bytes)
    (check : VerificationRequest → Run VerificationResponse) where
  unfoldable pub handle_signing : Expected SigningRequest → Handler → Handler
  handle_signing (expected req) h = record h { body = signing_to_body J (make req) }
  handle_signing (unexpected e) h = record h { error = e }

  -- what the passport's check throws leaves a `noexcept` function
  unfoldable pub handle_verification : Expected VerificationRequest → Handler → Run Handler
  handle_verification (expected req) h = check req >>= λ (resp : VerificationResponse).
      done (record h { body = verification_to_body J resp })
  handle_verification (unexpected e) h = done (record h { error = e })

  -- `handleRequest`
  unfoldable pub handle_request : Handler → Run Handler
  handle_request h = elim h.endpoint [
    | none ↦ fault
    | some e ↦ elim e [
      | sign ↦ signing_from_json J uuid_parse (J.text h.body) >>= λ (x : Expected SigningRequest).
          done (handle_signing x h)
      | verify ↦ verification_from_json J (J.text h.body) >>= λ (x : Expected VerificationRequest).
          handle_verification x h
    ]
  ]

  -- `sendResponse`
  unfoldable pub send : Handler → Run Response
  send h =
      if is_error h.error
      then (http_status h.error >>= λ (status : ℕ). error_to_body J T h.error >>= λ (body : Bytes).
          done (record { status = status; request_id = h.request_id; body = body }))
      else done (record { status = 200; request_id = h.request_id; body = h.body })

  -- `onEOM`
  unfoldable pub on_eom : Handler → Run Response
  on_eom h = if is_error h.error then send h else (handle_request h >>= λ (h' : Handler). send h')

-- `StirApiFactory`, and `HttpNotFound` behind it
pub data Route : Type 0 where
  stir_api : Route
  direct : ℕ → Route

unfoldable pub starts_with : Bytes → Bytes → Bool
starts_with [] s = true
starts_with (c ∷ p) [] = false
starts_with (c ∷ p) (d ∷ s) = same_text (c ∷ []) (d ∷ []) && starts_with p s

unfoldable pub route : Bytes → Route
route path = if starts_with (codes "/stir/v1/") path then stir_api else direct 404
