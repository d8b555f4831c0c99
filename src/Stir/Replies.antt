-- ===== src/Stir/Replies.antt =====
-- What a request to the STIR server is answered, whatever the pieces of its body.
use lnr_high_performance.Base.{
  ℕ, arith, ◌≡◌, refl, ◌∙◌, Bool, false, not, ◌||◌, Option, none, some, List, [], ◌∷◌, ◌++◌, leb,
  is_empty, if◌then◌else◌, Bytes,
}
use lnr_high_performance.Stir.Errors.{
  StirApiErrorCode, StirApiError, no_error, error_of, put_variable,
  svc_not_acceptable_response_body_type, svc_unsupported_request_body_type, svc_missing_body_length,
  svc_failed_to_parse_msg_body, svc_resource_not_found, pol_method_not_allowed,
}
use lnr_high_performance.Stir.Handler.{
  Header, content_length, content_type, accept, other, ignored, Visitor, new_visitor, accept_value,
  is_acceptable, is_json_type, length_of, visit, visit_all, finalize, Endpoint, sign, verify,
  Handler, new_handler, on_request,
}
use lnr_high_performance.Stir.Pieces.{Pieces}
use lnr_high_performance.Stir.Variables.{put_all}
use lnr_high_performance.Text.{codes, same_text}

-- what is to be done with a request
pub data Decision : Type 0 where
  refuse : StirApiErrorCode → List Bytes → Decision
  serve : Endpoint → Decision

-- the state that the head of a request leaves
abbrev pub Decided : Decision → Bytes → Handler → Type 0
Decided (refuse code vars) id h =
    (h.error ≡ put_all vars (error_of code)) × (h.request_id ≡ id) × (h.body ≡ [])
Decided (serve e) id h =
    h ≡ record { request_id = id; endpoint = some e; error = no_error; body = [] }

module _ (P : Pieces) (first_accepted : Bytes → Option Bytes) (to_uint32 : Bytes → Option ℕ)
    (is_request_id : Bytes → Bool) where
  -- one of the headers says that the body is JSON
  unfoldable pub any_json : List Header → Bool
  any_json [] = false
  any_json (content_type v ∷ hs) =
      is_json_type P first_accepted to_uint32 is_request_id v || any_json hs
  any_json (_ ∷ hs) = any_json hs

  abbrev pub or_else : {A : Type 0} → Option A → Option A → Option A
  or_else (some a) o = some a
  or_else none o = o

  -- the last Content-Length, the last Accept that is refused, and the last X-RequestID
  unfoldable pub last_length : List Header → Option ℕ
  last_length [] = none
  last_length (content_length v ∷ hs) =
      or_else (last_length hs) (some (length_of P first_accepted to_uint32 is_request_id v))
  last_length (_ ∷ hs) = last_length hs

  unfoldable pub last_refused : List Header → Option Bytes
  last_refused [] = none
  last_refused (accept v ∷ hs) =
      let token = accept_value P first_accepted to_uint32 is_request_id v in
      or_else (last_refused hs)
        (if is_acceptable P first_accepted to_uint32 is_request_id token then none else some token)
  last_refused (_ ∷ hs) = last_refused hs

  unfoldable pub last_id : List Header → Option Bytes
  last_id [] = none
  last_id (other name v ∷ hs) = or_else (last_id hs) (if is_request_id name then some v else none)
  last_id (_ ∷ hs) = last_id hs

  abbrev pub or_keep : {A : Type 0} → Option A → A → A
  or_keep (some a) old = a
  or_keep none old = old

  refused_error : Option Bytes → StirApiError → StirApiError
  refused_error o old = elim o [
    | none ↦ old
    | some t ↦ put_variable t (error_of svc_not_acceptable_response_body_type)
  ]

  abbrev Seen : List Header → Visitor → Visitor → Type 0
  Seen hs r r' = r' ≡ record {
    error = refused_error (last_refused hs) r.error;
    request_id = or_keep (last_id hs) r.request_id;
    length = or_else (last_length hs) r.length;
    json_input = any_json hs || r.json_input;
  }

  visit_all-Seen :
      (hs : List Header) (r : Visitor)
      → Seen hs r (visit_all P first_accepted to_uint32 is_request_id hs r)
  unfolding visit_all visit any_json last_length last_refused last_id refused_error
  visit_all-Seen [] r = refl
  visit_all-Seen (content_length v ∷ hs) r = visit_all-Seen hs _ ∙ ground arith
  visit_all-Seen (content_type v ∷ hs) r = visit_all-Seen hs _ ∙ ground arith
  visit_all-Seen (accept v ∷ hs) r = visit_all-Seen hs _ ∙ ground arith
  visit_all-Seen (other name v ∷ hs) r = visit_all-Seen hs _ ∙ ground arith
  visit_all-Seen (ignored ∷ hs) r = visit_all-Seen hs r

  -- The errors in the order in which they win: a path that is found, the type and the length of the
  -- body, and what the client accepts.
  unfoldable pub decide_endpoint : ℕ → Endpoint → List Header → Decision
  decide_endpoint limit e hs =
      if not (any_json hs)
      then refuse svc_unsupported_request_body_type (codes "application/json" ∷ [])
      else elim (last_length hs) [
        | none ↦ refuse svc_missing_body_length []
        | some n ↦
            if leb limit n
            then refuse svc_failed_to_parse_msg_body
                (codes "invalid message body length specified" ∷ [])
            else elim (last_refused hs) [
              | none ↦ serve e
              | some token ↦ refuse svc_not_acceptable_response_body_type (token ∷ [])
            ]
      ]

  unfoldable pub decide : ℕ → Bool → Bytes → List Header → Decision
  decide limit is_post path hs =
      if not is_post
      then refuse pol_method_not_allowed []
      else if same_text path (codes "/stir/v1/signing")
      then decide_endpoint limit sign hs
      else if same_text path (codes "/stir/v1/verification")
      then decide_endpoint limit verify hs
      else refuse svc_resource_not_found []

  -- the id of the request, or a new one
  abbrev pub id_of : Bytes → List Header → Bytes
  id_of uuid hs = let id = or_keep (last_id hs) [] in if is_empty id then uuid ++ 0 ∷ [] else id

  pub on_request-Decided :
      (limit : ℕ) (uuid : Bytes) (is_post : Bool) (path : Bytes) (hs : List Header)
      → Decided (decide limit is_post path hs) (id_of uuid hs) (
          on_request limit uuid is_post path
            (visit_all P first_accepted to_uint32 is_request_id hs new_visitor)
            new_handler)
  unfolding decide decide_endpoint on_request finalize new_visitor new_handler refused_error put_all
      no_error error_of
  on_request-Decided limit uuid is_post path hs =
      let seen = visit_all-Seen hs new_visitor in rw seen (ground arith)
