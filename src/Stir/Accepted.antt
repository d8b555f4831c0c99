-- ===== src/Stir/Accepted.antt =====
-- `fromJson` accepts a body exactly where it is such a message, and refuses any other with 400.
use lnr_high_performance.Base.{
  arith, ◌≡◌, ◌⊎◌, ◌↔◌, inl, inr, refl, sym, ap, ◌∙◌, subst, fault, fault_done, done_inj, Bool,
  true, false, Bytes, done, Bool-cases, Option-cases,
}
use lnr_high_performance.Stir.Errors.{
  StirApiError, is_error, http_status, shaken_api_error, error_of, put_variable, no_error,
  svc_failed_to_parse_msg_body,
}
use lnr_high_performance.Stir.Json.{
  Json, Thrown, missing_key, type_error, conversion_error, value, parsed, parse_error, bad_number,
  Parsed-cases,
}
use lnr_high_performance.Stir.Requests.{
  HasSigning, HasVerification, IsValidSigning, IsValidVerification, visit_signing_iff,
  visit_verification_iff, validate_signing_iff, validate_verification_iff, read_param-visited,
  visited_inj,
}
use lnr_high_performance.Stir.Types.{
  SigningRequest, VerificationRequest, Expected, expected, unexpected, Visited, visited, stopped,
  read_param, validate_signing, validate_verification, caught_error, visit_signing,
  visit_verification, checked, from_json, signing_from_json, verification_from_json,
}
use lnr_high_performance.Text.{codes}

caught_error-400 : (param : Bytes) (t : Thrown) → http_status (caught_error param t) ≡ done 400
unfolding caught_error http_status put_variable error_of shaken_api_error
caught_error-400 param missing_key = refl
caught_error-400 param (type_error what) = refl
caught_error-400 param (conversion_error what) = refl

expected_inj : {M : Type 0} {m m' : M} → expected m ≡ expected m' → m ≡ m'
expected_inj h = cc

unexpected_inj :
    {M : Type 0} {e e' : StirApiError}
    → ◌≡◌ {A = Expected M} (unexpected e) (unexpected e')
    → e ≡ e'
unexpected_inj h = cc

parsed_inj : {A : Type 0} {a b : A} → parsed a ≡ parsed b → a ≡ b
parsed_inj h = cc

parse_error_parsed : {A : Type 0} {a : A} → ¬ (parse_error ≡ parsed a)
parse_error_parsed h = cc

bad_number_parsed : {A : Type 0} {a : A} → ¬ (bad_number ≡ parsed a)
bad_number_parsed h = cc

true-false : ¬ (true ≡ false)
true-false h = cc

apart : {M : Type 0} {m : M} {e : StirApiError} → ¬ (unexpected e ≡ expected m)
apart h = cc

module _ (J : Json) {M : Type 0} (unwrapped : Bytes) (visit : J.Dynamic → Visited M)
    (validate : M → StirApiError) (Has : J.Dynamic → M → Type 0) (IsValid : M → Type 0)
    (visit-iff : (d : J.Dynamic) (m : M) → (visit d ≡ visited m) ↔ Has d m)
    (validate-iff : (m : M) → (is_error (validate m) ≡ false) ↔ IsValid m)
    (validate-400 : (m : M)
      → is_error (validate m) ≡ true
      → http_status (validate m) ≡ done 400) where
  -- the body is JSON, with a member of this name that has the fields, and they are valid
  abbrev pub Accepts : Bytes → M → Type 0
  Accepts body m =
      (json inner : J.Dynamic) × (J.parse_json body ≡ parsed json)
      × (J.get unwrapped json ≡ value inner)
      × Has inner m
      × IsValid m

  checked_iff :
      (v : Visited M) (m : M)
      → (checked J unwrapped visit validate v ≡ expected m) ↔ ((v ≡ visited m) × IsValid m)
  unfolding checked
  checked_iff (stopped param t) m = (λ h. absurd (apart h), λ h. cc (h.0))
  checked_iff (visited m') m = elim (Bool-cases (is_error (validate m'))) [
    | inl bad ↦ rw (bad) (
      λ h. absurd (apart h),
      λ h.
          let same : m' ≡ m = visited_inj h.0 in
          let good = (validate-iff m).1 h.1 in
          absurd (true-false (sym bad ∙ ap (λ x. is_error (validate x)) same ∙ good)),
    )
    | inr good ↦ rw (good) (
      λ h.
          let same = expected_inj h in
          (ap visited same, subst IsValid same ((validate-iff m').0 good)),
      λ h. ap expected (visited_inj h.0),
    )
  ]

  checked-400 :
      (v : Visited M) (e : StirApiError)
      → checked J unwrapped visit validate v ≡ unexpected e
      → http_status e ≡ done 400
  unfolding checked
  checked-400 (stopped param t) e h =
      ap http_status (sym (unexpected_inj h)) ∙ caught_error-400 param t
  checked-400 (visited m) e h = elim (Bool-cases (is_error (validate m))) [
    | inl bad ↦ ap http_status (sym (unexpected_inj (rw (bad, checked) at h))) ∙ validate-400 m bad
    | inr good ↦ absurd (apart (sym (rw (good, checked) at h)))
  ]

  read_inner :
      (json inner : J.Dynamic) (m : M)
      → J.get unwrapped json ≡ value inner
      → Has inner m
      → read_param unwrapped (J.get unwrapped json) visit ≡ visited m
  unfolding read_param
  read_inner json inner m q has = rw q ((visit-iff inner m).1 has)

  from_json_unparsed :
      (body : Bytes)
      → J.parse_json body ≡ parse_error
      → from_json J unwrapped visit validate (J.text body)
        ≡ done (
            unexpected
              (put_variable (codes "invalid JSON body") (error_of svc_failed_to_parse_msg_body)))
  unfolding from_json
  from_json_unparsed body e = rw (from_json, J.as_string-text body, e)

  from_json_parsed :
      (body : Bytes) (json : J.Dynamic)
      → J.parse_json body ≡ parsed json
      → from_json J unwrapped visit validate (J.text body)
        ≡ done (
            checked J unwrapped visit validate
              (read_param unwrapped (J.get unwrapped json) (λ (inner : J.Dynamic). visit inner)))
  unfolding from_json
  from_json_parsed body json e = rw (from_json, J.as_string-text body, e)

  from_json_unread :
      (body : Bytes)
      → J.parse_json body ≡ bad_number
      → from_json J unwrapped visit validate (J.text body) ≡ fault
  unfolding from_json
  from_json_unread body e = rw (from_json, J.as_string-text body, e)

  -- no answer is given just where the parser throws for a number
  pub from_json-fault :
      (body : Bytes)
      → (from_json J unwrapped visit validate (J.text body) ≡ fault)
        ↔ (J.parse_json body ≡ bad_number)
  from_json-fault body = (
    λ h. elim (Parsed-cases (J.parse_json body)) [
      | inl (json, e) ↦ absurd (fault_done (sym h ∙ from_json_parsed body json e))
      | inr k ↦ elim k [
        | inl e ↦ absurd (fault_done (sym h ∙ from_json_unparsed body e))
        | inr e ↦ e
      ]
    ],
    λ e. from_json_unread body e,
  )

  -- The body of a request as it is handed over, a string.
  pub from_json-Accepts :
      (body : Bytes) (m : M)
      → (from_json J unwrapped visit validate (J.text body) ≡ done (expected m)) ↔ Accepts body m
  from_json-Accepts body m = elim (Parsed-cases (J.parse_json body)) [
    | inr k ↦ elim k [
      | inl e ↦
          let bad = from_json_unparsed body e in
          (
            λ h. absurd (apart (done_inj (sym bad ∙ h))),
            λ (json, inner, p, q, has, ok). absurd (parse_error_parsed (sym e ∙ p)),
          )
      | inr e ↦
          let bad = from_json_unread body e in
          (
            λ h. absurd (fault_done (sym bad ∙ h)),
            λ (json, inner, p, q, has, ok). absurd (bad_number_parsed (sym e ∙ p)),
          )
    ]
    | inl (json, e) ↦
        let (to, from) =
          checked_iff
            (read_param unwrapped (J.get unwrapped json) (λ (inner : J.Dynamic). visit inner)) m in
        let good = from_json_parsed body json e in
        (
          λ h.
              let (seen, ok) = to (done_inj (sym good ∙ h)) in
              let (inner, q, r) = read_param-visited _ _ _ m seen in
              (json, inner, e, q, (visit-iff inner m).0 r, ok),
          λ (json', inner, p, q, has, ok).
              let same : json ≡ json' = parsed_inj (sym e ∙ p) in
              good
              ∙ ap done (from (read_inner json inner m (ap (J.get unwrapped) same ∙ q) has, ok)),
        )
  ]

  pub from_json-400 :
      (d : J.Dynamic) (e : StirApiError)
      → from_json J unwrapped visit validate d ≡ done (unexpected e)
      → http_status e ≡ done 400
  unfolding from_json http_status put_variable error_of shaken_api_error
  from_json-400 d e h = elim (Option-cases (J.as_string d)) [
    | inl a ↦ checked-400 (visit d) e (done_inj (rw (from_json, a) at h))
    | inr (s, a) ↦ elim (Parsed-cases (J.parse_json s)) [
      | inr k ↦ elim k [
        | inl b ↦ ap http_status (sym (unexpected_inj (done_inj (rw (from_json, a, b) at h))))
        | inr b ↦ absurd (fault_done (rw (from_json, a, b) at h))
      ]
      | inl (json, b) ↦
          checked-400 (read_param unwrapped (J.get unwrapped json) visit) e
            (done_inj (rw (from_json, a, b) at h))
    ]
  ]

module _ (J : Json) (uuid_parse : Bytes → Bool) where
  signing-400 :
      (m : SigningRequest)
      → is_error (validate_signing uuid_parse m) ≡ true
      → http_status (validate_signing uuid_parse m) ≡ done 400
  unfolding validate_signing http_status put_variable error_of shaken_api_error no_error
  signing-400 m h = ground arith

  verification-400 :
      (m : VerificationRequest)
      → is_error (validate_verification m) ≡ true
      → http_status (validate_verification m) ≡ done 400
  unfolding validate_verification http_status put_variable error_of shaken_api_error no_error
  verification-400 m h = ground arith

  abbrev pub AcceptsSigning : Bytes → SigningRequest → Type 0
  AcceptsSigning body m =
      (json inner : J.Dynamic) × (J.parse_json body ≡ parsed json)
      × (J.get (codes "signingRequest") json ≡ value inner)
      × HasSigning J inner m
      × IsValidSigning uuid_parse m

  abbrev pub AcceptsVerification : Bytes → VerificationRequest → Type 0
  AcceptsVerification body m =
      (json inner : J.Dynamic) × (J.parse_json body ≡ parsed json)
      × (J.get (codes "verificationRequest") json ≡ value inner)
      × HasVerification J inner m
      × IsValidVerification m

  -- A body is read as a signing request exactly where it is JSON with a member signingRequest that
  -- has the five fields of that request, with an attestation of A, B or C, an origid that is a UUID,
  -- at least one destination, and telephone numbers of the accepted characters only; so with a
  -- verification request and its four fields. Every refusal has status 400. The reading is undefined,
  -- with no outcome, just where the parser throws for an integer beyond int64.
  pub from_json_iff :
      (body : Bytes)
      → ((m : SigningRequest)
          → (signing_from_json J uuid_parse (J.text body) ≡ done (expected m))
            ↔ AcceptsSigning body m)
        × ((m : VerificationRequest)
            → (verification_from_json J (J.text body) ≡ done (expected m))
              ↔ AcceptsVerification body m)
        × ((e : StirApiError)
            → (signing_from_json J uuid_parse (J.text body) ≡ done (unexpected e))
              ⊎ (verification_from_json J (J.text body) ≡ done (unexpected e))
            → http_status e ≡ done 400)
        × ((signing_from_json J uuid_parse (J.text body) ≡ fault)
            ↔ (J.parse_json body ≡ bad_number))
        × ((verification_from_json J (J.text body) ≡ fault) ↔ (J.parse_json body ≡ bad_number))
  unfolding signing_from_json verification_from_json
  from_json_iff body = (
    from_json-Accepts J (codes "signingRequest") (visit_signing J) (validate_signing uuid_parse)
        (HasSigning J) (IsValidSigning uuid_parse) (visit_signing_iff J)
        (validate_signing_iff uuid_parse) signing-400 body,
    from_json-Accepts J (codes "verificationRequest") (visit_verification J) validate_verification
        (HasVerification J) IsValidVerification (visit_verification_iff J) validate_verification_iff
        verification-400 body,
    λ e k. elim k [
      | inl h ↦
          from_json-400 J (codes "signingRequest") (visit_signing J) (validate_signing uuid_parse)
            (HasSigning J) (IsValidSigning uuid_parse) (visit_signing_iff J)
            (validate_signing_iff uuid_parse) signing-400 (J.text body) e h
      | inr h ↦
          from_json-400 J (codes "verificationRequest") (visit_verification J) validate_verification
            (HasVerification J) IsValidVerification (visit_verification_iff J)
            validate_verification_iff verification-400 (J.text body) e h
    ],
    from_json-fault J (codes "signingRequest") (visit_signing J) (validate_signing uuid_parse)
        (HasSigning J) (IsValidSigning uuid_parse) (visit_signing_iff J)
        (validate_signing_iff uuid_parse) signing-400 body,
    from_json-fault J (codes "verificationRequest") (visit_verification J) validate_verification
        (HasVerification J) IsValidVerification (visit_verification_iff J) validate_verification_iff
        verification-400 body,
  )
