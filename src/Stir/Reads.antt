-- ===== src/Stir/Reads.antt =====
-- What the passports of stir/Passport.cpp hold, once the JSON parser has read them, and how a
-- signature is cut in two.
use lnr_high_performance.Base.{
  ℕ, zero, suc, arith, ◌≡◌, refl, sym, ap, ◌∙◌, ◌⊎◌, inl, inr, true, false, some, List, [], ◌∷◌,
  ◌++◌, ltb, length, length-append, take_all, take, drop, Bytes,
}
use lnr_high_performance.Stir.Checked.{go_on, all_checks}
use lnr_high_performance.Stir.Json.{Json, value, parsed}
use lnr_high_performance.Stir.Passport.{
  Base64, Signer, x5u_text, header_text, payload_text, signing_string, sort,
}
use lnr_high_performance.Stir.Types.{SigningRequest}
use lnr_high_performance.Stir.Identity.{tn_validation_passed, response, drift}
use lnr_high_performance.Stir.Verify.{
  check_header, header_checks, is_attestation, read_iat, check_iat, check_attest, payload_checks,
  check_payload, numbers_of, check_signature,
}
use lnr_high_performance.Text.{codes}

module _ (J : Json) where
  -- the member `key` of `d` is there, and it is `v`
  abbrev pub Member : Bytes → J.Dynamic → J.Dynamic → Type 0
  Member key d v = (J.get_ptr key d ≡ some v) × (J.index key d ≡ value v)

  abbrev pub Claims : Bytes → J.Dynamic → J.Dynamic → Type 0
  Claims key d want = (v : J.Dynamic) × Member key d v × (J.same v want ≡ true)

  abbrev pub ClaimsTn : Bytes → J.Dynamic → J.Dynamic → Type 0
  ClaimsTn key d want =
      (v : J.Dynamic) × (tn : J.Dynamic) × Member key d v
      × (J.index (codes "tn") v ≡ value tn)
      × (J.same tn want ≡ true)

  -- the header that the program writes is read, with the claims of a passport
  abbrev pub ReadsHeader : Type 0
  ReadsHeader =
      (d : J.Dynamic) × (J.parse_json header_text ≡ parsed d)
      × (J.is_object d ≡ true)
      × Claims (codes "alg") d (J.text (codes "ES256"))
      × Claims (codes "ppt") d (J.text (codes "shaken"))
      × Claims (codes "typ") d (J.text (codes "passport"))
      × Claims (codes "x5u") d (J.text x5u_text)

  -- the payload that the program writes is read: the members are those of the request
  abbrev pub ReadsPayload : (List Bytes → J.Dynamic) → (ℕ → Bytes) → SigningRequest → Type 0
  ReadsPayload range_array show req =
      (d : J.Dynamic) × (J.parse_json (payload_text show req) ≡ parsed d)
      × (J.is_object d ≡ true)
      × Claims (codes "attest") d (J.text req.attest)
      × ClaimsTn (codes "dest") d (range_array (sort req.dest))
      × ((v : J.Dynamic) × Member (codes "iat") d v × (J.as_natural v ≡ some req.iat))
      × ClaimsTn (codes "orig") d (J.text req.orig)
      × ((v : J.Dynamic) × Member (codes "origid") d v)

  pub check_header_lem : (h : ReadsHeader) → check_header J x5u_text header_text ≡ go_on tt
  unfolding check_header header_checks all_checks
  check_header_lem
        (
          d,
          read,
          object,
          (alg, alg_at, alg_same),
          (ppt, ppt_at, ppt_same),
          (typ, typ_at, typ_same),
          (x5u, x5u_at, x5u_same),
        ) =
      rw
        (
          read, object, ppt_at.0, typ_at.0, alg_at.0, x5u_at.0, typ_at.1, typ_same, alg_at.1,
          alg_same, x5u_at.1, x5u_same, ppt_at.1, ppt_same,
        )
        refl

  -- the attestations that a signing request may have
  abbrev pub IsAttestation : Bytes → Type 0
  IsAttestation s = (s ≡ codes "A") ⊎ (s ≡ codes "B") ⊎ (s ≡ codes "C")

  is_attestation_lem :
      (v : J.Dynamic) (s : Bytes)
      → IsAttestation s
      → J.same v (J.text s) ≡ true
      → is_attestation J v ≡ true
  unfolding is_attestation
  is_attestation_lem v s (inl a) same =
      let k = ap (λ t. J.same v (J.text t)) (sym a) ∙ same in rw k refl
  is_attestation_lem v s (inr (inl b)) same =
      let k = ap (λ t. J.same v (J.text t)) (sym b) ∙ same in rw k (ground arith)
  is_attestation_lem v s (inr (inr c)) same =
      let k = ap (λ t. J.same v (J.text t)) (sym c) ∙ same in rw k (ground arith)

  pub check_payload_lem :
      (range_array : List Bytes → J.Dynamic) (show : ℕ → Bytes) (req : SigningRequest)
      (identity : Bytes) (period time : ℕ)
      → IsAttestation req.attest
      → ltb period (drift req.iat time) ≡ false
      → ReadsPayload range_array show req
      → check_payload J range_array period
          (record { identity = identity; to = sort req.dest; from = req.orig; time = time })
          (payload_text show req)
        ≡ go_on tt
  unfolding check_payload payload_checks all_checks check_iat read_iat check_attest
  check_payload_lem range_array show req identity period time attested fresh
        (
          d,
          read,
          object,
          (attest, attest_at, attest_same),
          (dest, dest_tn, dest_at, dest_tn_at, dest_same),
          (iat, iat_at, iat_number),
          (orig, orig_tn, orig_at, orig_tn_at, orig_same),
          (origid, origid_at),
        ) =
      let valid = is_attestation_lem attest req.attest attested attest_same in
      rw
        (
          read, object, dest_at.0, orig_at.0, attest_at.0, origid_at.0, iat_at.0, iat_at.1,
          iat_number, fresh, attest_at.1, valid, orig_at.1, orig_tn_at, orig_same, dest_at.1,
          dest_tn_at, dest_same,
        )
        refl

module _ {A : Type 0} where
  take_front : (n : ℕ) (xs ys : List A) → length xs ≡ n → take n (xs ++ ys) ≡ xs
  take_front zero [] ys h = refl
  take_front zero (x ∷ xs) ys h = absurd (omega (arith, h))
  take_front (suc n) [] ys h = absurd (omega (arith, h))
  take_front (suc n) (x ∷ xs) ys h = ap (λ t. x ∷ t) (take_front n xs ys (omega (arith, h)))

  drop_front : (n : ℕ) (xs ys : List A) → length xs ≡ n → drop n (xs ++ ys) ≡ ys
  drop_front zero [] ys h = refl
  drop_front zero (x ∷ xs) ys h = absurd (omega (arith, h))
  drop_front (suc n) [] ys h = absurd (omega (arith, h))
  drop_front (suc n) (x ∷ xs) ys h = drop_front n xs ys (omega (arith, h))

module _ (B : Base64) (S : Signer) where
  numbers_of_lem : (d : Bytes) → numbers_of B S ((S.sign d).0 ++ (S.sign d).1) ≡ some (S.sign d)
  unfolding numbers_of
  numbers_of_lem d =
      let (r, s) = S.sign d in
      let (lr, ls) = S.length-sign d in
      let whole : length (r ++ s) ≡ 64 = omega (arith, length-append r s, lr, ls) in
      rw (whole, take_front 32 r s lr, drop_front 32 r s lr, take_all 32 s (omega (arith, ls))) refl

  pub check_signature_lem :
      (header payload : Bytes)
      → (let (r, s) = S.sign (S.sha256 (signing_string B header payload)) in
          check_signature B S header payload (B.encode (r ++ s)))
        ≡ response 0 tn_validation_passed [] []
  unfolding check_signature
  check_signature_lem header payload =
      let d = S.sha256 (signing_string B header payload) in
      rw (B.decode-encode ((S.sign d).0 ++ (S.sign d).1), numbers_of_lem d, S.is_signature-sign d)
        refl
