-- ===== src/Stir/Requests.antt =====
-- Which messages are accepted.
use lnr_high_performance.Base.{
  ℕ, ◌≤◌, ◌≡◌, ◌⊎◌, ◌↔◌, inl, inr, refl, sym, ap, ◌∙◌, Bool, true, false, List, [], ◌∷◌, is_empty,
  arith, All, Bytes, Bool-cases,
}
use lnr_high_performance.Stir.Errors.{is_error, error_of, put_variable, no_error}
use lnr_high_performance.Stir.Json.{Json, Caught, value, thrown}
use lnr_high_performance.Stir.Types.{
  SigningRequest, VerificationRequest, Visited, visited, read_param, then_get, c_str, accepted_char,
  accepted_chars, all_of, validate_tn, validate_signing, validate_verification, visit_signing,
  visit_verification,
}
use lnr_high_performance.Text.Laws.{same_text_iff}
use lnr_high_performance.Text.{codes}

-- digits, parentheses, `*`, `+`, `-`, `.` and `#`; and the zero byte
abbrev pub IsTnChar : ℕ → Type 0
IsTnChar c =
    ((b'0' ≤ c) × (c ≤ b'9'))
    ⊎ (((40 ≤ c) × (c ≤ 43)) ⊎ (((45 ≤ c) × (c ≤ 46)) ⊎ ((c ≡ 35) ⊎ (c ≡ 0))))

abbrev pub IsTn : Bytes → Type 0
IsTn = All IsTnChar

accepted_char_iff : (c : ℕ) → (accepted_char accepted_chars c ≡ true) ↔ IsTnChar c
unfolding accepted_char
accepted_char_iff c = ground arith

-- an `all_of` by an equivalent predicate
all_of_iff :
    {A : Type 0} (p : A → Bool) (P : A → Type 0)
    → ((a : A) → (p a ≡ true) ↔ P a)
    → (as' : List A) → (all_of p as' ≡ true) ↔ All P as'
unfolding all_of
all_of_iff p P each [] = (λ e. tt, λ u. refl)
all_of_iff p P each (a ∷ rest) =
    let (to, from) = all_of_iff p P each rest in
    elim (Bool-cases (p a)) [
      | inl t ↦ rw t (λ e. ((each a).0 t, to e), λ h. from h.1)
      | inr f ↦ rw f (λ e. cc, λ h. sym f ∙ (each a).1 h.0)
    ]

validate_tn_iff : (s : Bytes) → (validate_tn s ≡ true) ↔ IsTn s
unfolding validate_tn
validate_tn_iff s = all_of_iff (accepted_char accepted_chars) IsTnChar accepted_char_iff s

tns_iff : (ss : List Bytes) → (all_of validate_tn ss ≡ true) ↔ All IsTn ss
tns_iff ss = all_of_iff validate_tn IsTn validate_tn_iff ss

pub record IsValidSigning (uuid_parse : Bytes → Bool) (m : SigningRequest) : Type 0 where
  pub attest : (m.attest ≡ codes "A") ⊎ ((m.attest ≡ codes "B") ⊎ (m.attest ≡ codes "C"))
  pub origid : uuid_parse (c_str m.origid) ≡ true
  pub dest_some : is_empty m.dest ≡ false
  pub orig : IsTn m.orig
  pub dest : All IsTn m.dest

pub record IsValidVerification (m : VerificationRequest) : Type 0 where
  pub to_some : is_empty m.to ≡ false
  pub from : IsTn m.from
  pub to : All IsTn m.to

module _ (uuid_parse : Bytes → Bool) where
  pub validate_signing_iff :
      (m : SigningRequest)
      → (is_error (validate_signing uuid_parse m) ≡ false) ↔ IsValidSigning uuid_parse m
  unfolding validate_signing no_error error_of put_variable
  validate_signing_iff m = ground (
    arith,
    same_text_iff m.attest (codes "A"),
    same_text_iff m.attest (codes "B"),
    same_text_iff m.attest (codes "C"),
    validate_tn_iff m.orig,
    tns_iff m.dest,
  )

pub validate_verification_iff :
    (m : VerificationRequest) → (is_error (validate_verification m) ≡ false) ↔ IsValidVerification m
unfolding validate_verification no_error error_of put_variable
validate_verification_iff m = ground (arith, validate_tn_iff m.from, tns_iff m.to)

pub visited_inj : {M : Type 0} {m m' : M} → visited m ≡ visited m' → m ≡ m'
visited_inj h = cc

pub read_param-visited :
    {A M : Type 0} (param : Bytes) (c : Caught A) (k : A → Visited M) (m : M)
    → read_param param c k ≡ visited m
    → (a : A) × (c ≡ value a) × (k a ≡ visited m)
unfolding read_param
read_param-visited param (value a) k m h = (a, refl, h)
read_param-visited param (thrown t) k m h = cc

module _ (J : Json) where
  -- the value has these fields
  pub record HasSigning (d : J.Dynamic) (m : SigningRequest) : Type 0 where
    pub attest : then_get (J.get (codes "attest") d) J.to_text ≡ value m.attest
    pub dest :
        then_get (then_get (J.get (codes "dest") d) (J.get (codes "tn"))) J.to_texts ≡ value m.dest
    pub orig :
        then_get (then_get (J.get (codes "orig") d) (J.get (codes "tn"))) J.to_text ≡ value m.orig
    pub origid : then_get (J.get (codes "origid") d) J.to_text ≡ value m.origid
    pub iat : then_get (J.get (codes "iat") d) J.to_number ≡ value m.iat

  pub record HasVerification (d : J.Dynamic) (m : VerificationRequest) : Type 0 where
    pub identity : then_get (J.get (codes "identity") d) J.to_text ≡ value m.identity
    pub time : then_get (J.get (codes "time") d) J.to_number ≡ value m.time
    pub from :
        then_get (then_get (J.get (codes "from") d) (J.get (codes "tn"))) J.to_text ≡ value m.from
    pub to : then_get (then_get (J.get (codes "to") d) (J.get (codes "tn"))) J.to_texts ≡ value m.to

  pub visit_signing_iff :
      (d : J.Dynamic) (m : SigningRequest) → (visit_signing J d ≡ visited m) ↔ HasSigning d m
  unfolding visit_signing read_param
  visit_signing_iff d m = (
    λ h.
        let (attest, a, h1) = read_param-visited _ _ _ m h in
        let (dest, b, h2) = read_param-visited _ _ _ m h1 in
        let (orig, c, h3) = read_param-visited _ _ _ m h2 in
        let (origid, e, h4) = read_param-visited _ _ _ m h3 in
        let (iat, f, h5) = read_param-visited _ _ _ m h4 in
        let same = visited_inj h5 in
        record {
          attest = a ∙ ap (λ (x : SigningRequest). value x.attest) same;
          dest = b ∙ ap (λ (x : SigningRequest). value x.dest) same;
          orig = c ∙ ap (λ (x : SigningRequest). value x.orig) same;
          origid = e ∙ ap (λ (x : SigningRequest). value x.origid) same;
          iat = f ∙ ap (λ (x : SigningRequest). value x.iat) same;
        },
    λ h. rw (h.attest, h.dest, h.orig, h.origid, h.iat),
  )

  pub visit_verification_iff :
      (d : J.Dynamic) (m : VerificationRequest)
      → (visit_verification J d ≡ visited m) ↔ HasVerification d m
  unfolding visit_verification read_param
  visit_verification_iff d m = (
    λ h.
        let (identity, a, h1) = read_param-visited _ _ _ m h in
        let (time, b, h2) = read_param-visited _ _ _ m h1 in
        let (from, c, h3) = read_param-visited _ _ _ m h2 in
        let (to, e, h4) = read_param-visited _ _ _ m h3 in
        let same = visited_inj h4 in
        record {
          identity = a ∙ ap (λ (x : VerificationRequest). value x.identity) same;
          time = b ∙ ap (λ (x : VerificationRequest). value x.time) same;
          from = c ∙ ap (λ (x : VerificationRequest). value x.from) same;
          to = e ∙ ap (λ (x : VerificationRequest). value x.to) same;
        },
    λ h. rw (h.identity, h.time, h.from, h.to),
  )
