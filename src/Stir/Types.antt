-- ===== src/Stir/Types.antt =====
-- The messages of stir/StirApiTypes.cpp and .h: how they are read from JSON, checked and written.
-- `uuid_parse` says whether libuuid reads a text; a C string ends at its first zero.
use lnr_high_performance.Base.{
  ℕ, Bool, true, not, ◌&&◌, ◌||◌, none, some, List, [], ◌∷◌, ◌==◌, is_empty, if◌then◌else◌, Bytes,
  Run, done, fault,
}
use lnr_high_performance.Stir.Errors.{
  StirApiError, no_error, error_of, is_error, put_variable, svc_missing_information,
  svc_invalid_parameter_value, svc_failed_to_parse_msg_body,
}
use lnr_high_performance.Stir.Json.{
  Json, Thrown, missing_key, type_error, conversion_error, Caught, value, thrown, parsed,
  parse_error, bad_number,
}
use lnr_high_performance.Text.{codes, same_text}

pub record SigningRequest : Type 0 where
  pub attest : Bytes
  pub dest : List Bytes
  pub iat : ℕ
  pub orig : Bytes
  pub origid : Bytes

pub record VerificationRequest : Type 0 where
  pub identity : Bytes
  pub to : List Bytes
  pub from : Bytes
  pub time : ℕ

pub record VerificationResponse : Type 0 where
  pub reason_code : ℕ
  pub ver_stat : Bytes
  pub reason_text : Bytes
  pub reason_desc : Bytes

-- `folly::Expected`
pub data Expected (M : Type 0) : Type 0 where
  expected : M → Expected M
  unexpected : StirApiError → Expected M

-- The outcome of a visitor: its message, or what was thrown while it read a parameter.
pub data Visited (M : Type 0) : Type 0 where
  visited : M → Visited M
  stopped : Bytes → Thrown → Visited M

-- `param = …; msg.… = …`
unfoldable pub read_param : {A M : Type 0} → Bytes → Caught A → (A → Visited M) → Visited M
read_param param (value a) k = k a
read_param param (thrown t) k = stopped param t

abbrev pub then_get : {A B : Type 0} → Caught A → (A → Caught B) → Caught B
then_get (value a) f = f a
then_get (thrown t) f = thrown t

-- the text that a `const char *` into it shows
unfoldable pub c_str : Bytes → Bytes
c_str [] = []
c_str (c ∷ s) = let rest = c_str s in if c == 0 then [] else c ∷ rest

-- `!!strchr(acceptedChars, c)`, which also finds the terminating zero
unfoldable pub accepted_char : List ℕ → ℕ → Bool
accepted_char [] c = c == 0
accepted_char (a ∷ rest) c = (a == c) || accepted_char rest c

unfoldable pub all_of : {A : Type 0} → (A → Bool) → List A → Bool
all_of p [] = true
all_of p (a ∷ rest) = p a && all_of p rest

abbrev pub accepted_chars : Bytes
accepted_chars = codes "0123456789*#+.-()"

unfoldable pub validate_tn : Bytes → Bool
validate_tn tn = all_of (accepted_char accepted_chars) tn

-- what a failed check reports
abbrev pub refusal : Bytes → Bytes → StirApiError
refusal param what = put_variable what (put_variable param (error_of svc_invalid_parameter_value))

abbrev pub only_tn : Bytes
only_tn = codes "Only [0-9*#+.-()] characters allowed for TN"

module _ (uuid_parse : Bytes → Bool) where
  unfoldable pub validate_signing : SigningRequest → StirApiError
  validate_signing m =
      if not (same_text m.attest (codes "A"))
        && (not (same_text m.attest (codes "B")) && not (same_text m.attest (codes "C")))
      then refusal (codes "attest") (codes "Must be 'A', 'B' or 'C'")
      else if not (uuid_parse (c_str m.origid))
      then refusal (codes "origid") (codes "should correspond to a UUID (RFC 4122)")
      else if is_empty m.dest
      then refusal (codes "dest") (codes "should contain one or more TN")
      else if not (validate_tn m.orig)
      then refusal (codes "orig") only_tn
      else if not (all_of validate_tn m.dest)
      then refusal (codes "dest") only_tn
      else no_error

unfoldable pub validate_verification : VerificationRequest → StirApiError
validate_verification m =
    if is_empty m.to
    then refusal (codes "to") (codes "should contain one or more TN")
    else if not (validate_tn m.from)
    then refusal (codes "from") only_tn
    else if not (all_of validate_tn m.to)
    then refusal (codes "to") only_tn
    else no_error

-- the `catch` clauses of `fromJson`
unfoldable pub caught_error : Bytes → Thrown → StirApiError
caught_error param missing_key = put_variable param (error_of svc_missing_information)
caught_error param (type_error what) = refusal param what
caught_error param (conversion_error what) = refusal param what

module _ (J : Json) where
  unfoldable pub visit_signing : J.Dynamic → Visited SigningRequest
  visit_signing d =
      read_param (codes "attest") (then_get (J.get (codes "attest") d) J.to_text) λ attest.
        read_param (codes "dest")
          (then_get (then_get (J.get (codes "dest") d) (J.get (codes "tn"))) J.to_texts)
          λ dest.
            read_param (codes "orig")
              (then_get (then_get (J.get (codes "orig") d) (J.get (codes "tn"))) J.to_text)
              λ orig.
                read_param (codes "origid") (then_get (J.get (codes "origid") d) J.to_text)
                  λ origid.
                    read_param (codes "iat") (then_get (J.get (codes "iat") d) J.to_number) λ iat.
                      visited (record {
                        attest = attest;
                        dest = dest;
                        iat = iat;
                        orig = orig;
                        origid = origid;
                      })

  unfoldable pub visit_verification : J.Dynamic → Visited VerificationRequest
  visit_verification d =
      read_param (codes "identity") (then_get (J.get (codes "identity") d) J.to_text) λ identity.
        read_param (codes "time") (then_get (J.get (codes "time") d) J.to_number) λ time.
          read_param (codes "from")
            (then_get (then_get (J.get (codes "from") d) (J.get (codes "tn"))) J.to_text)
            λ from.
              read_param (codes "to")
                (then_get (then_get (J.get (codes "to") d) (J.get (codes "tn"))) J.to_texts)
                λ to. visited (record { identity = identity; to = to; from = from; time = time })

  module _ {M : Type 0} (unwrapped : Bytes) (visit : J.Dynamic → Visited M)
      (validate : M → StirApiError) where
    -- `visit`, and `validate` where it threw nothing
    unfoldable pub checked : Visited M → Expected M
    checked (stopped param t) = unexpected (caught_error param t)
    checked (visited m) = if is_error (validate m) then unexpected (validate m) else expected m

    -- `fromJson`: a string is parsed and unwrapped first. What `parseJson` throws for an integer
    -- beyond int64 is caught while `visitor.param` is still null, and a `StringPiece` is made of it.
    unfoldable pub from_json : J.Dynamic → Run (Expected M)
    from_json d = elim (J.as_string d) [
      | none ↦ done (checked (visit d))
      | some s ↦ elim (J.parse_json s) [
        | bad_number ↦ fault
        | parse_error ↦ done (
            unexpected
              (put_variable (codes "invalid JSON body") (error_of svc_failed_to_parse_msg_body)))
        | parsed json ↦ done (
            checked
              (read_param unwrapped (J.get unwrapped json) λ (inner : J.Dynamic). visit inner))
      ]
    ]

  module _ (uuid_parse : Bytes → Bool) where
    unfoldable pub signing_from_json : J.Dynamic → Run (Expected SigningRequest)
    signing_from_json d =
        from_json (codes "signingRequest") visit_signing (validate_signing uuid_parse) d

  unfoldable pub verification_from_json : J.Dynamic → Run (Expected VerificationRequest)
  verification_from_json d =
      from_json (codes "verificationRequest") visit_verification validate_verification d

  -- `toBody`
  unfoldable pub signing_to_body : Bytes → Bytes
  signing_to_body identity = J.to_json (
      J.object
        ((codes "signingResponse", J.object ((codes "identity", J.text identity) ∷ [])) ∷ []))

  unfoldable pub verification_to_body : VerificationResponse → Bytes
  verification_to_body resp = J.to_json (
      J.object (
        (
          codes "verificationResponse",
          J.object (
              (codes "reasoncode", J.number resp.reason_code)
              ∷ (codes "reasontext", J.text resp.reason_text)
              ∷ (codes "reasondesc", J.text resp.reason_desc)
              ∷ (codes "verstat", J.text resp.ver_stat)
              ∷ []),
        )
        ∷ []))
