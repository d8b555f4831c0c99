-- ===== src/Stir/Says.antt =====
-- What a header and a payload show that pass the checks of stir/Passport.cpp.
use lnr_high_performance.Base.{
  ℕ, ◌≡◌, refl, ap, ◌∙◌, Bool, true, false, not, List, ltb, Bytes, done, no_fuel,
}
use lnr_high_performance.Stir.Checked.{
  Checked, go_on, respond, throws, cut_off, lift, or_refuse, result, then-go_on, unless-go_on,
  lift-go_on, or_refuse-go_on, all_checks-go_on,
}
use lnr_high_performance.Stir.Json.{Json, value, parsed}
use lnr_high_performance.Stir.Refusals.{Refuses}
use lnr_high_performance.Stir.Types.{VerificationRequest, VerificationResponse}
use lnr_high_performance.Stir.Identity.{tn_validation_passed, drift}
use lnr_high_performance.Stir.Verify.{
  require, require_tn, header_checks, payload_checks, check_iat, check_attest, check_header,
  is_attestation, read_iat, check_payload, mismatch,
}
use lnr_high_performance.Text.{codes}

not-false : (b : Bool) → not b ≡ false → b ≡ true
not-false true h = refl
not-false false h = absurd (cc)

pub go_on_inj : {A : Type 0} {a b : A} → go_on a ≡ go_on b → a ≡ b
go_on_inj h = cc

pub result-ends : (m : Checked VerificationResponse) → Refuses m → ¬ (result m ≡ no_fuel)
result-ends (go_on a) ends h = cc
result-ends (respond r) ends h = cc
result-ends throws ends h = cc
result-ends cut_off ends h = ends

pub result-passed :
    (m : Checked VerificationResponse) (r : VerificationResponse)
    → Refuses m
    → result m ≡ done r
    → r.ver_stat ≡ tn_validation_passed
    → m ≡ go_on r
result-passed (go_on a) r refuses h passed = cc
result-passed (respond a) r refuses h passed =
    let same : a ≡ r = cc in absurd (refuses (ap (λ x. x.ver_stat) same ∙ passed))
result-passed throws r refuses h passed = absurd (cc)
result-passed cut_off r refuses h passed = absurd refuses

module _ (J : Json) where
  -- the member `key` of `d` is `want`
  abbrev pub Says : Bytes → J.Dynamic → J.Dynamic → Type 0
  Says key d want = (v : J.Dynamic) × (J.index key d ≡ value v) × (J.same v want ≡ true)

  abbrev pub SaysTn : Bytes → J.Dynamic → J.Dynamic → Type 0
  SaysTn key d want = (v : J.Dynamic) × (J.index key d ≡ value v) × Says (codes "tn") v want

  require-Says :
      (key : Bytes) (d want : J.Dynamic) (r : VerificationResponse) (u : Unit)
      → require J key d want r ≡ go_on u
      → Says key d want
  require-Says key d want r u h =
      let (v, hv, same) = then-go_on (lift (J.index key d)) _ u h in
      (v, lift-go_on _ v hv, not-false _ (unless-go_on _ r u same))

  require_tn-SaysTn :
      (key : Bytes) (d want : J.Dynamic) (u : Unit)
      → require_tn J key d want ≡ go_on u
      → SaysTn key d want
  require_tn-SaysTn key d want u h =
      let (v, hv, says) = then-go_on (lift (J.index key d)) _ u h in
      (v, lift-go_on _ v hv, require-Says (codes "tn") v want (mismatch J key) u says)

  -- a header of this kind of passport, whose certificate is at `info`
  abbrev pub IsHeader : Bytes → Bytes → Type 0
  IsHeader info text =
      (d : J.Dynamic) × (J.parse_json text ≡ parsed d)
      × Says (codes "typ") d (J.text (codes "passport"))
      × Says (codes "alg") d (J.text (codes "ES256"))
      × Says (codes "x5u") d (J.text info)
      × Says (codes "ppt") d (J.text (codes "shaken"))

  -- a payload that is about the call of the request, and fresh
  abbrev pub IsPayload : (List Bytes → J.Dynamic) → ℕ → VerificationRequest → Bytes → Type 0
  IsPayload range_array period request text =
      (d : J.Dynamic) × (J.parse_json text ≡ parsed d)
      × ((iat : ℕ) × (read_iat J d ≡ go_on iat) × (ltb period (drift iat request.time) ≡ false))
      × ((attest : J.Dynamic) × (J.index (codes "attest") d ≡ value attest)
          × (is_attestation J attest ≡ true))
      × SaysTn (codes "orig") d (J.text request.from)
      × SaysTn (codes "dest") d (range_array request.to)

  pub check_header-IsHeader :
      (info text : Bytes) (u : Unit) → check_header J info text ≡ go_on u → IsHeader info text
  unfolding check_header header_checks
  check_header-IsHeader info text u h =
      let (d, hd, checks) = then-go_on (or_refuse (J.parse_json text) _) _ u h in
      let (object, (k1, (k2, (k3, (k4, (typ, (alg, (x5u, (ppt, end))))))))) =
        all_checks-go_on (header_checks J info d) u checks in
      (
        d,
        or_refuse-go_on _ _ d hd,
        require-Says (codes "typ") d _ _ tt typ,
        require-Says (codes "alg") d _ _ tt alg,
        require-Says (codes "x5u") d _ _ tt x5u,
        require-Says (codes "ppt") d _ _ tt ppt,
      )

  check_iat-fresh :
      (period time : ℕ) (d : J.Dynamic) (u : Unit)
      → check_iat J period time d ≡ go_on u
      → (iat : ℕ) × (read_iat J d ≡ go_on iat) × (ltb period (drift iat time) ≡ false)
  unfolding check_iat
  check_iat-fresh period time d u h =
      let (iat, read, fresh) = then-go_on (read_iat J d) _ u h in
      (iat, read, unless-go_on _ _ u fresh)

  check_attest-valid :
      (d : J.Dynamic) (u : Unit)
      → check_attest J d ≡ go_on u
      → (v : J.Dynamic) × (J.index (codes "attest") d ≡ value v) × (is_attestation J v ≡ true)
  unfolding check_attest
  check_attest-valid d u h =
      let (v, hv, valid) = then-go_on (lift (J.index (codes "attest") d)) _ u h in
      (v, lift-go_on _ v hv, not-false _ (unless-go_on _ _ u valid))

  pub check_payload-IsPayload :
      (range_array : List Bytes → J.Dynamic) (period : ℕ) (request : VerificationRequest)
      (text : Bytes) (u : Unit)
      → check_payload J range_array period request text ≡ go_on u
      → IsPayload range_array period request text
  unfolding check_payload payload_checks
  check_payload-IsPayload range_array period request text u h =
      let (d, hd, checks) = then-go_on (or_refuse (J.parse_json text) _) _ u h in
      let (object, (k1, (k2, (k3, (k4, (k5, (iat, (attest, (orig, (dest, end)))))))))) =
        all_checks-go_on (payload_checks J range_array period request d) u checks in
      (
        d,
        or_refuse-go_on _ _ d hd,
        check_iat-fresh period request.time d tt iat,
        check_attest-valid d tt attest,
        require_tn-SaysTn (codes "orig") d _ tt orig,
        require_tn-SaysTn (codes "dest") d _ tt dest,
      )
