-- ===== src/Stir/Answers.antt =====
-- A request to the STIR server gets one answer, whatever the pieces of its body.
use lnr_high_performance.Base.{
  ◌⊎◌, ℕ, arith, ◌≡◌, refl, sym, ap, ◌∙◌, Bool, true, false, is_some, Option, some, List, [], ◌∷◌,
  ◌++◌, Bytes, Run, done, fault, no_fuel, ◌>>=◌, Option-cases, inl, inr,
}
use lnr_high_performance.Reverse.Body.{concat}
use lnr_high_performance.Stir.Accepted.{from_json_iff}
use lnr_high_performance.Stir.Errors.{
  StirApiError, no_error, error_of, is_error, put_variable, http_status, error_to_body,
}
use lnr_high_performance.Stir.Handler.{
  Header, new_visitor, visit_all, Endpoint, sign, verify, Handler, new_handler, Response,
  on_request, on_body, on_bodies, handle_signing, handle_verification, handle_request, send, on_eom,
}
use lnr_high_performance.Stir.Json.{Json}
use lnr_high_performance.Stir.Pieces.{Pieces}
use lnr_high_performance.Stir.Replies.{
  Decision, refuse, serve, decide, id_of, Decided, on_request-Decided,
}
use lnr_high_performance.Stir.Types.{
  SigningRequest, VerificationRequest, VerificationResponse, Expected, expected, unexpected,
  signing_from_json, verification_from_json, signing_to_body, verification_to_body,
}
use lnr_high_performance.Stir.Variables.{put_all}
use lnr_high_performance.Vendor.{FollyText}
use mathlib.Core.List.{append_assoc, append-nil}

kind-put_all : (vs : List Bytes) (e : StirApiError) → (put_all vs e).kind ≡ e.kind
unfolding put_all put_variable
kind-put_all [] e = refl
kind-put_all (v ∷ vs) e = kind-put_all vs (put_variable v e)

fault_400 : ¬ (◌≡◌ {A = Run ℕ} fault (done 400))
fault_400 h = cc

400-is_error : (e : StirApiError) → http_status e ≡ done 400 → is_error e ≡ true
unfolding http_status
400-is_error e h = elim (Option-cases e.kind) [
  | inl k ↦ absurd (fault_400 (rw (http_status, k) at h))
  | inr (c, k) ↦ ap is_some k
]

-- the pieces of a body add up, unless there is an error already
bodies-closed : (bs : List Bytes) (h : Handler) → is_error h.error ≡ true → on_bodies bs h ≡ h
unfolding on_bodies on_body
bodies-closed [] h e = refl
bodies-closed (b ∷ bs) h e = rw (on_bodies, on_body, e) (bodies-closed bs h e)

bodies-concat :
    (bs : List Bytes) (h : Handler)
    → is_error h.error ≡ false
    → on_bodies bs h ≡ record h { body = h.body ++ concat bs }
unfolding on_bodies on_body concat
bodies-concat [] h e = ap (λ b. record h { body = b }) (sym (append-nil h.body))
bodies-concat (b ∷ bs) h e =
    rw (on_bodies, on_body, e)
      (bodies-concat bs (record h { body = h.body ++ b }) e
        ∙ ap (λ x. record h { body = x }) (append_assoc h.body b (concat bs)))

module _ (J : Json) (T : FollyText) (uuid_parse : Bytes → Bool) (make : SigningRequest → Bytes)
    (check : VerificationRequest → Run VerificationResponse) where
  -- the response that reports an error
  abbrev report : StirApiError → Bytes → Run Response
  report e id = http_status e >>= λ (status : ℕ). error_to_body J T e >>= λ (body : Bytes).
      done (record { status = status; request_id = id; body = body })

  abbrev good : Bytes → Bytes → Response
  good id body = record { status = 200; request_id = id; body = body }

  -- the response that what was read from the body calls for
  unfoldable pub signed : Expected SigningRequest → Bytes → Run Response
  signed (expected req) id = done (good id (signing_to_body J (make req)))
  signed (unexpected e) id = report e id

  unfoldable pub verified : Expected VerificationRequest → Bytes → Run Response
  verified (expected req) id =
      check req >>= λ (resp : VerificationResponse). done (good id (verification_to_body J resp))
  verified (unexpected e) id = report e id

  -- the response that a request calls for
  unfoldable pub answer : Decision → Bytes → Bytes → Run Response
  answer (refuse code vars) id body = report (put_all vars (error_of code)) id
  answer (serve sign) id body =
      signing_from_json J uuid_parse (J.text body) >>= λ (x : Expected SigningRequest). signed x id
  answer (serve verify) id body =
      verification_from_json J (J.text body) >>= λ (x : Expected VerificationRequest). verified x id

  send-report :
      (h : Handler) (e : StirApiError)
      → h.error ≡ e
      → is_error e ≡ true
      → send J T uuid_parse make check h ≡ report e h.request_id
  unfolding send
  send-report h e same bad = let bad' = ap is_error same ∙ bad in rw (bad', same) refl

  refused_is_error :
      (body : Bytes) (e : StirApiError)
      → (signing_from_json J uuid_parse (J.text body) ≡ done (unexpected e))
        ⊎ (verification_from_json J (J.text body) ≡ done (unexpected e))
      → is_error e ≡ true
  refused_is_error body e h = 400-is_error e ((from_json_iff J uuid_parse body).2 e h)

  abbrev waiting : Endpoint → Bytes → Bytes → Handler
  waiting e id body = record { request_id = id; endpoint = some e; error = no_error; body = body }

  signed_lem :
      (x : Expected SigningRequest) (id body : Bytes)
      → ((e : StirApiError) → x ≡ unexpected e → is_error e ≡ true)
      → send J T uuid_parse make check
          (handle_signing J T uuid_parse make check x (waiting sign id body))
        ≡ signed x id
  unfolding handle_signing send no_error signed
  signed_lem (expected req) id body bad = refl
  signed_lem (unexpected e) id body bad = let err = bad e refl in rw err refl

  -- a verification that throws leaves no response
  verified_lem :
      (x : Expected VerificationRequest) (id body : Bytes)
      → ((e : StirApiError) → x ≡ unexpected e → is_error e ≡ true)
      → (handle_verification J T uuid_parse make check x (waiting verify id body)
          >>= λ (h : Handler). send J T uuid_parse make check h)
        ≡ verified x id
  unfolding handle_verification send no_error verified
  verified_lem (expected req) id body bad = ground arith
  verified_lem (unexpected e) id body bad = let err = bad e refl in rw err refl

  bind_each :
      {M : Type 0} (m : Run M) (f : M → Run Handler) (g : M → Run Response)
      → ((x : M) → m ≡ done x → (f x >>= λ (h : Handler). send J T uuid_parse make check h) ≡ g x)
      → ((m >>= f) >>= λ (h : Handler). send J T uuid_parse make check h) ≡ (m >>= g)
  bind_each (done x) f g h = h x refl
  bind_each fault f g h = refl
  bind_each no_fuel f g h = refl

  served :
      (e : Endpoint) (id body : Bytes)
      → on_eom J T uuid_parse make check (waiting e id body) ≡ answer (serve e) id body
  unfolding on_eom handle_request no_error answer
  served sign id body =
      bind_each (signing_from_json J uuid_parse (J.text body)) _ _
        (λ x h. signed_lem x id body (λ e k. refused_is_error body e (inl (h ∙ ap done k))))
  served verify id body =
      bind_each (verification_from_json J (J.text body)) _ _
        (λ x h. verified_lem x id body (λ e k. refused_is_error body e (inr (h ∙ ap done k))))

  -- from the state that the head leaves to the response
  after :
      (d : Decision) (bs : List Bytes) (id : Bytes) (h : Handler)
      → Decided d id h
      → on_eom J T uuid_parse make check (on_bodies bs h) ≡ answer d id (concat bs)
  unfolding on_eom answer no_error error_of
  after (refuse code vars) bs id h (same, ids, none_yet) =
      let bad = ap is_some (kind-put_all vars (error_of code)) in
      let bad' = ap is_error same ∙ bad in
      rw (bodies-closed bs h bad', bad') (send-report h _ same bad ∙ ap (report _) ids)
  after (serve e) bs id h same =
      rw
        (
          same,
          bodies-concat bs
              (record { request_id = id; endpoint = some e; error = no_error; body = [] }) refl,
        )
        (served e id (concat bs))

  -- Whatever the pieces of its body, a request is answered as its head and the concatenation of
  -- the pieces decide. A method other than POST, an unknown path, a type other than JSON, a missing
  -- length, a length of the limit or more and a type that is not to be sent are refused in this
  -- order, with their error in the body; else the body is read, and its error or the reply of the
  -- endpoint is the response; where the reading or the verification throws, there is none.
  pub handle-answer :
      (P : Pieces) (first_accepted : Bytes → Option Bytes) (to_uint32 : Bytes → Option ℕ)
      (is_request_id : Bytes → Bool) (limit : ℕ) (uuid : Bytes) (is_post : Bool) (path : Bytes)
      (hs : List Header) (bs : List Bytes)
      → on_eom J T uuid_parse make check (
          on_bodies bs (
            on_request limit uuid is_post path
              (visit_all P first_accepted to_uint32 is_request_id hs new_visitor)
              new_handler))
        ≡ answer
            (decide P first_accepted to_uint32 is_request_id limit is_post path hs)
            (id_of P first_accepted to_uint32 is_request_id uuid hs)
            (concat bs)
  handle-answer P first_accepted to_uint32 is_request_id limit uuid is_post path hs bs =
      after (decide P first_accepted to_uint32 is_request_id limit is_post path hs) bs _ _
        (on_request-Decided P first_accepted to_uint32 is_request_id limit uuid is_post path hs)
