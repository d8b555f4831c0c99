-- ===== src/Stir/Refusals.antt =====
-- Every early return of `verifyPassport` in stir/Passport.cpp reports that the call did not pass.
use lnr_high_performance.Base.{
  All, ◌==◌, ==_iff, length, length-append, ◌++◌, suc, zero, ℕ, arith, ◌≤◌, ◌≡◌, ◌≢◌, sym, ap, ◌∙◌,
  Bool, true, false, ◌⊎◌, inl, inr, Option, none, some, List, [], ◌∷◌, Bool-cases, Bytes,
}
use lnr_high_performance.Stir.Checked.{
  Checked, go_on, respond, throws, cut_off, ◌then◌, unless, lift, or_respond, or_refuse, all_checks,
}
use lnr_high_performance.Stir.Json.{
  Json, Caught, value, thrown, Parsed, parsed, parse_error, bad_number,
}
use lnr_high_performance.Stir.Pieces.{Pieces, Without}
use lnr_high_performance.Stir.Types.{VerificationRequest, VerificationResponse}
use lnr_high_performance.Stir.Identity.{
  check_param, portions, identity_checks, invalid_identity, unsupported_credential, read_info,
  tn_validation_failed, no_tn_validation, tn_validation_passed, read_identity, stale_date,
  check_params, bad_identity_info,
}
use lnr_high_performance.Stir.Verify.{
  require, header_checks, require, require_tn, header_checks, payload_checks, check_iat,
  check_attest, check_header, read_iat, check_payload,
}
use lnr_high_performance.Text.{codes, same_text}

true-false : ¬ (true ≡ false)
true-false h = cc

pub failed_passed : ¬ (tn_validation_failed ≡ tn_validation_passed)
unfolding same_text
failed_passed h =
    let differ : true ≡ false = ap (λ s. same_text s tn_validation_failed) h in true-false differ

none_passed : ¬ (no_tn_validation ≡ tn_validation_passed)
unfolding same_text
none_passed h =
    let differ : true ≡ false = ap (λ s. same_text s no_tn_validation) h in true-false differ

-- a check comes to an end, and what it responds is never that the call passed
abbrev pub Refuses : {A : Type 0} → Checked A → Type 0
Refuses (go_on a) = Unit
Refuses (respond r) = ¬ (r.ver_stat ≡ tn_validation_passed)
Refuses throws = Unit
Refuses cut_off = ⊥

pub unless-Refuses :
    (bad : Bool) (r : VerificationResponse)
    → ¬ (r.ver_stat ≡ tn_validation_passed)
    → Refuses (unless bad r)
unless-Refuses true r nope = nope
unless-Refuses false r nope = tt

lift-Refuses : {A : Type 0} (c : Caught A) → Refuses (lift c)
lift-Refuses (value a) = tt
lift-Refuses (thrown t) = tt

or_respond-Refuses :
    {A : Type 0} (o : Option A) (r : VerificationResponse)
    → ¬ (r.ver_stat ≡ tn_validation_passed)
    → Refuses (or_respond o r)
or_respond-Refuses none r nope = nope
or_respond-Refuses (some a) r nope = tt

or_refuse-Refuses :
    {A : Type 0} (o : Parsed A) (r : VerificationResponse)
    → ¬ (r.ver_stat ≡ tn_validation_passed)
    → Refuses (or_refuse o r)
or_refuse-Refuses parse_error r nope = nope
or_refuse-Refuses bad_number r nope = tt
or_refuse-Refuses (parsed a) r nope = tt

pub then-Refuses :
    {A B : Type 0} (m : Checked A) (f : A → Checked B)
    → Refuses m
    → ((a : A) → Refuses (f a))
    → Refuses (m then f)
then-Refuses (go_on a) f hm hf = hf a
then-Refuses (respond r) f hm hf = hm
then-Refuses throws f hm hf = tt
then-Refuses cut_off f hm hf = absurd hm

all_checks-Refuses : (cs : List (Checked Unit)) → All Refuses cs → Refuses (all_checks cs)
unfolding all_checks
all_checks-Refuses [] hs = tt
all_checks-Refuses (c ∷ cs) hs = then-Refuses c _ hs.0 (λ u. all_checks-Refuses cs hs.1)

not_passed : (desc : Bytes) → ¬ ((invalid_identity desc).ver_stat ≡ tn_validation_passed)
unfolding invalid_identity
not_passed desc = none_passed

bad_info_passed : (desc : Bytes) → ¬ ((bad_identity_info desc).ver_stat ≡ tn_validation_passed)
unfolding bad_identity_info
bad_info_passed desc = none_passed

pub stale_passed : (desc : Bytes) → ¬ ((stale_date desc).ver_stat ≡ tn_validation_passed)
unfolding stale_date
stale_passed desc = none_passed

unsupported_passed :
    (desc : Bytes) → ¬ ((unsupported_credential false desc).ver_stat ≡ tn_validation_passed)
unfolding unsupported_credential
unsupported_passed desc = none_passed

apart : (c d : ℕ) → (c == d) ≡ false → c ≢ d
apart c d f k = true-false (sym ((==_iff c d).1 k) ∙ f)

-- a text has the separator, or has it nowhere
Separated-cases :
    (sep : ℕ) (s : Bytes) → ((a b : Bytes) × (s ≡ a ++ sep ∷ b) × Without sep a) ⊎ Without sep s
Separated-cases sep [] = inr tt
Separated-cases sep (c ∷ s) = elim (Bool-cases (c == sep)) [
  | inl t ↦ inl ([], s, ap (λ x. x ∷ s) ((==_iff c sep).0 t), tt)
  | inr f ↦ elim (Separated-cases sep s) [
    | inl (a, b, same, plain) ↦ inl (c ∷ a, b, ap (λ x. c ∷ x) same, (apart c sep f, plain))
    | inr plain ↦ inr (apart c sep f, plain)
  ]
]

module _ (P : Pieces) (is_uri : Bytes → Bool) where
  -- a parameter takes at least one byte
  split_step-le : (sep : ℕ) (s : Bytes) → length (P.split_step sep s).1 ≤ length s
  split_step-le sep s = elim (Separated-cases sep s) [
    | inl (a, b, k, plain) ↦
        rw (k, P.split_step-found sep a b plain) (omega (arith, length-append a (sep ∷ b)))
    | inr plain ↦ rw (P.split_step_missing sep s plain) (omega arith)
  ]

  split_step-lt : (sep c : ℕ) (s : Bytes) → length (P.split_step sep (c ∷ s)).1 ≤ length s
  split_step-lt sep c s = elim (Separated-cases sep (c ∷ s)) [
    | inl (a, b, k, plain) ↦
        let lengths : suc (length s) ≡ length (a ++ sep ∷ b) = ap length k in
        rw (k, P.split_step-found sep a b plain) (omega (arith, lengths, length-append a (sep ∷ b)))
    | inr plain ↦ rw (P.split_step_missing sep (c ∷ s) plain) (omega arith)
  ]

  check_params-Refuses :
      (fuel : ℕ) (s : Bytes) → length s ≤ fuel → Refuses (check_params P is_uri fuel s)
  unfolding check_params check_param
  check_params-Refuses fuel [] le = tt
  check_params-Refuses zero (c ∷ s) le = absurd (omega arith)
  check_params-Refuses (suc fuel) (c ∷ s) le =
      let (param, behind) = P.split_step b'=' (c ∷ s) in
      let (setting, rest) = P.split_step b';' behind in
      let shorter : length behind ≤ length s = split_step-lt b'=' c s in
      let shorter' : length rest ≤ length behind = split_step-le b';' behind in
      then-Refuses (check_param P is_uri param setting) (λ u. check_params P is_uri fuel rest)
        (unless-Refuses _ _ (not_passed _)) (λ u. check_params-Refuses fuel rest (omega arith))

  pub read_identity-Refuses : (s : Bytes) → Refuses (read_identity P is_uri s)
  unfolding read_identity identity_checks
  read_identity-Refuses s =
      let (header, payload, signature, behind) = portions P is_uri s in
      let (info, rest) = read_info P is_uri (P.ltrim behind) in
      then-Refuses (all_checks (identity_checks P is_uri header payload info rest)) _
        (all_checks-Refuses (identity_checks P is_uri header payload info rest) (
          unless-Refuses _ _ (not_passed _),
          (
            unless-Refuses _ _ (bad_info_passed _),
            (
              unless-Refuses _ _ (bad_info_passed _),
              (check_params-Refuses (length rest) rest (omega arith), tt),
            ),
          ),
        ))
        (λ u. tt)

module _ (J : Json) where
  require-Refuses :
      (key : Bytes) (d want : J.Dynamic) (r : VerificationResponse)
      → ¬ (r.ver_stat ≡ tn_validation_passed)
      → Refuses (require J key d want r)
  require-Refuses key d want r nope =
      then-Refuses (lift (J.index key d)) _ (lift-Refuses _) (λ v. unless-Refuses _ r nope)

  require_tn-Refuses : (key : Bytes) (d want : J.Dynamic) → Refuses (require_tn J key d want)
  require_tn-Refuses key d want =
      then-Refuses (lift (J.index key d)) _ (lift-Refuses _)
        (λ v. require-Refuses (codes "tn") v want _ (not_passed _))

  pub check_header-Refuses : (info text : Bytes) → Refuses (check_header J info text)
  unfolding check_header header_checks
  check_header-Refuses info text =
      then-Refuses (or_refuse (J.parse_json text) _) _ (or_refuse-Refuses _ _ (bad_info_passed _))
        (λ d. all_checks-Refuses (header_checks J info d) (
          unless-Refuses _ _ (bad_info_passed _),
          (
            unless-Refuses _ _ (bad_info_passed _),
            (
              unless-Refuses _ _ (bad_info_passed _),
              (
                unless-Refuses _ _ (bad_info_passed _),
                (
                  unless-Refuses _ _ (bad_info_passed _),
                  (
                    require-Refuses (codes "typ") d _ _ (unsupported_passed _),
                    (
                      require-Refuses (codes "alg") d _ _ (unsupported_passed _),
                      (
                        require-Refuses (codes "x5u") d _ _ (bad_info_passed _),
                        (require-Refuses (codes "ppt") d _ _ (not_passed _), tt),
                      ),
                    ),
                  ),
                ),
              ),
            ),
          ),
        ))

  pub check_payload-Refuses :
      (range_array : List Bytes → J.Dynamic) (period : ℕ) (request : VerificationRequest)
      (text : Bytes)
      → Refuses (check_payload J range_array period request text)
  unfolding check_payload payload_checks check_iat read_iat check_attest
  check_payload-Refuses range_array period request text =
      then-Refuses (or_refuse (J.parse_json text) _) _ (or_refuse-Refuses _ _ (bad_info_passed _))
        (λ d. all_checks-Refuses (payload_checks J range_array period request d) (
          unless-Refuses _ _ (bad_info_passed _),
          (
            unless-Refuses _ _ (not_passed _),
            (
              unless-Refuses _ _ (not_passed _),
              (
                unless-Refuses _ _ (not_passed _),
                (
                  unless-Refuses _ _ (not_passed _),
                  (
                    unless-Refuses _ _ (not_passed _),
                    (
                      then-Refuses (read_iat J d) _
                          (then-Refuses (lift (J.index (codes "iat") d)) _ (lift-Refuses _)
                            (λ v. or_respond-Refuses _ _ (not_passed _)))
                          (λ iat. unless-Refuses _ _ (stale_passed _)),
                      (
                        then-Refuses (lift (J.index (codes "attest") d)) _ (lift-Refuses _)
                            (λ v. unless-Refuses _ _ (not_passed _)),
                        (
                          require_tn-Refuses (codes "orig") d _,
                          (require_tn-Refuses (codes "dest") d _, tt),
                        ),
                      ),
                    ),
                  ),
                ),
              ),
            ),
          ),
        ))
