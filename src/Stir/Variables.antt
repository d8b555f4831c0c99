-- ===== src/Stir/Variables.antt =====
-- The variables of an error reach the answer.
use lnr_high_performance.Base.{
  ℕ, ◌≡◌, ◌≢◌, sym, ap, ◌∙◌, some, List, [], ◌∷◌, ◌++◌, map, All, Bytes, done,
}
use lnr_high_performance.Stir.Errors.{
  StirApiErrorCode, svc_missing_body, svc_missing_information, pol_method_not_allowed,
  svc_not_acceptable_response_body_type, svc_resource_not_found, svc_invalid_parameter_value,
  svc_unsupported_request_body_type, svc_failed_to_parse_msg_body, svc_missing_body_length,
  pol_internal_error, StirApiError, shaken_api_error, error_of, put_variable, variables,
  error_to_json, error_to_body,
}
use lnr_high_performance.Stir.Json.{Json}
use lnr_high_performance.Text.{codes, same_text}
use lnr_high_performance.Vendor.{FollyText}
use mathlib.Core.List.{append_assoc, append-nil}

abbrev pub NoTab : Bytes → Type 0
NoTab = All (λ c. c ≢ b'\t')

-- `folly::splitTo` at tabs cuts off the text before the first one.
pub record SplitsTabs (T : FollyText) : Type 0 where
  pub whole : (a : Bytes) → NoTab a → T.split b'\t' a ≡ a ∷ []
  pub first : (a b : Bytes) → NoTab a → T.split b'\t' (a ++ b'\t' ∷ b) ≡ a ∷ T.split b'\t' b

unfoldable pub put_all : List Bytes → StirApiError → StirApiError
put_all [] e = e
put_all (v ∷ vs) e = put_all vs (put_variable v e)

abbrev behind : List Bytes → Bytes
behind [] = []
behind (v ∷ vs) = b'\t' ∷ (v ++ behind vs)

-- what stands behind a first variable
put_all-behind :
    (vs : List Bytes) (c : ℕ) (s : Bytes) (code : StirApiErrorCode)
    → put_all vs (record { kind = some code; vars = c ∷ s })
      ≡ record { kind = some code; vars = c ∷ (s ++ behind vs) }
unfolding put_all put_variable
put_all-behind [] c s code =
    ap (λ x. record { kind = some code; vars = c ∷ x }) (sym (append-nil s))
put_all-behind (v ∷ vs) c s code =
    put_all-behind vs c (s ++ b'\t' ∷ v) code
    ∙ ap (λ x. record { kind = some code; vars = c ∷ x }) (append_assoc s (b'\t' ∷ v) (behind vs))

split-behind :
    (T : FollyText) (splits : SplitsTabs T) (v : Bytes) (vs : List Bytes)
    → NoTab v
    → All NoTab vs
    → T.split b'\t' (v ++ behind vs) ≡ v ∷ vs
split-behind T splits v [] h hs = rw (append-nil v) (splits.whole v h)
split-behind T splits v (w ∷ vs) h hs =
    splits.first v (w ++ behind vs) h ∙ ap (◌∷◌ v) (split-behind T splits w vs hs.0 hs.1)

-- the member of the answer that an error stands in
unfoldable pub exception_of : StirApiErrorCode → Bytes
exception_of pol_method_not_allowed = codes "policyException"
exception_of pol_internal_error = codes "policyException"
exception_of _ = codes "serviceException"

module _ (J : Json) (T : FollyText) where
  abbrev pub Report : StirApiErrorCode → List Bytes → StirApiError → Type 0
  Report code vs e =
      error_to_body J T e
      ≡ done (
          J.to_json (
            J.object (
              (
                codes "requestError",
                J.object (
                    (
                      exception_of code,
                      J.object (
                          (codes "messageId", J.text (shaken_api_error code).id)
                          ∷ (codes "text", J.text (shaken_api_error code).text)
                          ∷ (codes "variables", J.array (map J.text vs))
                          ∷ []),
                    )
                    ∷ []),
              )
              ∷ [])))

  -- each id starts with SVC or POL
  report :
      (code : StirApiErrorCode) (vs : List Bytes) (s : Bytes)
      → variables J T (record { kind = some code; vars = s }) ≡ vs
      → Report code vs (record { kind = some code; vars = s })
  unfolding error_to_body error_to_json shaken_api_error same_text exception_of
  report svc_missing_body vs s h = rw (error_to_body, error_to_json, h)
  report svc_missing_information vs s h = rw (error_to_body, error_to_json, h)
  report svc_not_acceptable_response_body_type vs s h = rw (error_to_body, error_to_json, h)
  report svc_resource_not_found vs s h = rw (error_to_body, error_to_json, h)
  report svc_unsupported_request_body_type vs s h = rw (error_to_body, error_to_json, h)
  report svc_invalid_parameter_value vs s h = rw (error_to_body, error_to_json, h)
  report svc_failed_to_parse_msg_body vs s h = rw (error_to_body, error_to_json, h)
  report svc_missing_body_length vs s h = rw (error_to_body, error_to_json, h)
  report pol_method_not_allowed vs s h = rw (error_to_body, error_to_json, h)
  report pol_internal_error vs s h = rw (error_to_body, error_to_json, h)

  -- Variables without tabs, the first of which is not empty, that are put in an error one after
  -- another stand in its answer as they were, in that order, with the id and the text of its code,
  -- as a policy exception for the two policy errors and as a service exception for the others.
  pub error_to_body-put_all :
      (splits : SplitsTabs T) (code : StirApiErrorCode) (c : ℕ) (s : Bytes) (vs : List Bytes)
      → NoTab (c ∷ s)
      → All NoTab vs
      → Report code ((c ∷ s) ∷ vs) (put_all ((c ∷ s) ∷ vs) (error_of code))
  unfolding put_all put_variable error_of variables
  error_to_body-put_all splits code c s vs h hs =
      rw (put_all-behind vs c s code)
        (report code ((c ∷ s) ∷ vs) (c ∷ (s ++ behind vs)) (split-behind T splits (c ∷ s) vs h hs))
