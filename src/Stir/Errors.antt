-- ===== src/Stir/Errors.antt =====
-- `StirApiError` of stir/StirApiTypes.cpp. The texts of the source are UTF-8.
use lnr_high_performance.Base.{
  ℕ, Bool, Option, none, some, List, [], ◌∷◌, ◌++◌, map, if◌then◌else◌, take, is_empty, is_some,
  Bytes, Run, done, fault, ◌>>=◌,
}
use lnr_high_performance.Stir.Json.{Json}
use lnr_high_performance.Text.{codes, same_text}
use lnr_high_performance.Vendor.{FollyText}

pub data StirApiErrorCode : Type 0 where
  svc_missing_body svc_missing_information svc_not_acceptable_response_body_type : StirApiErrorCode
  svc_resource_not_found svc_unsupported_request_body_type : StirApiErrorCode
  svc_invalid_parameter_value svc_failed_to_parse_msg_body : StirApiErrorCode
  svc_missing_body_length pol_method_not_allowed pol_internal_error : StirApiErrorCode

pub record StirApiErrorClass : Type 0 where
  pub id : Bytes
  pub reflect : Bytes
  pub text : Bytes
  pub http_status : ℕ

-- ‘ and ’
abbrev pub opening : Bytes
opening = 0xe2 ∷ 0x80 ∷ 0x98 ∷ []

abbrev pub closing : Bytes
closing = 0xe2 ∷ 0x80 ∷ 0x99 ∷ []

-- the table `shakenApiError`
unfoldable pub shaken_api_error : StirApiErrorCode → StirApiErrorClass
shaken_api_error svc_missing_body = record {
  id = codes "SVC4000";
  reflect = codes "SHAKEN_SVC_MISSING_BODY";
  text = codes "Missing request body";
  http_status = 400;
}
shaken_api_error svc_missing_information = record {
  id = codes "SVC4001";
  reflect = codes "SHAKEN_SVC_MISSING_INFORMATION";
  text = codes "Missing mandatory parameter " ++ (opening ++ (codes "%1" ++ closing));
  http_status = 400;
}
shaken_api_error svc_not_acceptable_response_body_type = record {
  id = codes "SVC4002";
  reflect = codes "SHAKEN_SVC_NOT_ACCEPTABLE_RESPONSE_BODY_TYPE";
  text =
      codes "Requested response body type "
      ++ (opening ++ (codes "%1" ++ (closing ++ codes " is not supported")));
  http_status = 406;
}
shaken_api_error svc_resource_not_found = record {
  id = codes "SVC4003";
  reflect = codes "SHAKEN_SVC_RESOURCE_NOT_FOUND";
  text = codes "Requested resource was not found";
  http_status = 404;
}
shaken_api_error svc_unsupported_request_body_type = record {
  id = codes "SVC4004";
  reflect = codes "SHAKEN_SVC_UNSUPPORTED_REQUEST_BODY_TYPE";
  text = codes "Unsupported request body type, expected " ++ (opening ++ (codes "%1" ++ opening));
  http_status = 415;
}
shaken_api_error svc_invalid_parameter_value = record {
  id = codes "SVC4005";
  reflect = codes "SHAKEN_SVC_INVALID_PARAMETER_VALUE";
  text = codes "Invalid " ++ (opening ++ (codes "%1" ++ (closing ++ codes " parameter value: %2")));
  http_status = 400;
}
shaken_api_error svc_failed_to_parse_msg_body = record {
  id = codes "SVC4006";
  reflect = codes "SHAKEN_SVC_FAILED_TO_PARSE_MSG_BODY";
  text = codes "Failed to parse received message body: %1";
  http_status = 400;
}
shaken_api_error svc_missing_body_length = record {
  id = codes "SVC4007";
  reflect = codes "SHAKEN_SVC_MISSING_BODY_LENGTH";
  text = codes "Missing mandatory Content-Length header";
  http_status = 411;
}
shaken_api_error pol_method_not_allowed = record {
  id = codes "POL4050";
  reflect = codes "SHAKEN_POL_METHOD_NOT_ALLOWED";
  text = codes "Method not allowed";
  http_status = 405;
}
shaken_api_error pol_internal_error = record {
  id = codes "POL5000";
  reflect = codes "SHAKEN_POL_INTERNAL_ERROR";
  text = codes "Internal Server Error. Please try again later";
  http_status = 500;
}

-- `kind_` is null in a new error, which is none
pub record StirApiError : Type 0 where
  pub kind : Option StirApiErrorCode
  pub vars : Bytes

unfoldable pub no_error : StirApiError
no_error = record { kind = none; vars = [] }

-- the constructor, also by assignment
unfoldable pub error_of : StirApiErrorCode → StirApiError
error_of code = record { kind = some code; vars = [] }

-- `operator bool`
abbrev pub is_error : StirApiError → Bool
is_error e = is_some e.kind

-- `http_status()`, which dereferences `kind_`
unfoldable pub http_status : StirApiError → Run ℕ
http_status e = elim e.kind [ none ↦ fault | some code ↦ done (shaken_api_error code).http_status ]

-- `putVariable`: variables are set apart by tabs
unfoldable pub put_variable : Bytes → StirApiError → StirApiError
put_variable value e = record e {
  vars = if is_empty e.vars then value else e.vars ++ b'\t' ∷ value;
}

module _ (J : Json) (T : FollyText) where
  -- the array `vars`
  unfoldable pub variables : StirApiError → List Bytes
  variables e = if is_empty e.vars then [] else T.split b'\t' e.vars

  -- `toJson`: the first three letters of the id choose the member
  unfoldable pub error_to_json : StirApiError → Run J.Dynamic
  error_to_json e = elim e.kind [
    | none ↦ fault
    | some code ↦
        let c = shaken_api_error code in
        let body = J.object (
          (codes "messageId", J.text c.id)
          ∷ (codes "text", J.text c.text)
          ∷ (codes "variables", J.array (map J.text (variables e)))
          ∷ []) in
        let type = take 3 c.id in
        if same_text type (codes "SVC")
        then done (J.object ((codes "serviceException", body) ∷ []))
        else if same_text type (codes "POL")
        then done (J.object ((codes "policyException", body) ∷ []))
        else fault
  ]

  -- `toBody`
  unfoldable pub error_to_body : StirApiError → Run Bytes
  error_to_body e = error_to_json e >>= λ (d : J.Dynamic).
      done (J.to_json (J.object ((codes "requestError", d) ∷ [])))
