-- ===== src/Acl/Verdict.antt =====
-- A call is judged by its own rule and touches no other.
use lnr_high_performance.Acl.{Acls, Rule, Origin, find_rule, set_rule, expired, is_call_allowed}
use lnr_high_performance.Base.{
  ℕ, ◌≡◌, ◌↔◌, refl, sym, ap, ◌∙◌, true, false, Option, none, some, [], ◌∷◌, if◌then◌else◌,
  Bool-cases, Option-cases, inl, inr,
}

true-false : ¬ (true ≡ false)
true-false h = cc

module _ (A : Acls) (same_iff : (a b : A.Address) → (A.same a b ≡ true) ↔ (a ≡ b)) where
  differ : (a b : A.Address) → A.same b a ≡ false → A.same a b ≡ false
  differ a b h = elim (Bool-cases (A.same a b)) [
    | inr f ↦ f
    | inl t ↦ absurd (true-false (sym ((same_iff b a).1 (sym ((same_iff a b).0 t))) ∙ h))
  ]

  find_rule-set_rule :
      (a b : A.Address) (rule : Rule A) (rules : Origin A)
      → find_rule A b (set_rule A a rule rules)
        ≡ (if A.same a b then some rule else find_rule A b rules)
  unfolding find_rule set_rule
  find_rule-set_rule a b rule [] = refl
  find_rule-set_rule a b rule (e ∷ rules) = elim (Bool-cases (A.same e.0 a)) [
    | inl this ↦
        let agree : A.same e.0 b ≡ A.same a b = ap (λ x. A.same x b) ((same_iff e.0 a).0 this) in
        rw (this, find_rule, agree) (elim (Bool-cases (A.same a b)) [ inl t ↦ rw t | inr f ↦ rw f ])
    | inr other ↦
        rw (other, find_rule, find_rule-set_rule a b rule rules)
          (elim (Bool-cases (A.same e.0 b)) [
            | inr f ↦ rw f
            | inl t ↦
                let apart : A.same a b ≡ A.same a e.0 =
                  ap (λ x. A.same a x) (sym ((same_iff e.0 b).0 t)) in
                rw (apart, differ a e.0 other)
          ])
  ]

  -- the status of a call, by the rule of its peer
  unfoldable pub verdict : ℕ → Option (Rule A) → ℕ
  verdict now none = 401
  verdict now (some rule) =
      if expired A now rule then 401 else if (A.consume now rule.call_budget).0 then 200 else 429

  -- the rule behind the call
  unfoldable pub charged : ℕ → Option (Rule A) → Option (Rule A)
  charged now none = none
  charged now (some rule) = some (
      if expired A now rule
      then rule
      else record rule { call_budget = (A.consume now rule.call_budget).1 })

  unfoldable pub rules_of : Option (Origin A) → Origin A
  rules_of none = []
  rules_of (some origin) = origin

  kept :
      (peer q : A.Address) (origin : Origin A)
      → find_rule A q origin
        ≡ (if A.same peer q then find_rule A peer origin else find_rule A q origin)
  kept peer q origin = elim (Bool-cases (A.same peer q)) [
    | inr f ↦ rw f
    | inl t ↦ rw t (ap (λ x. find_rule A x origin) (sym ((same_iff peer q).0 t)))
  ]

  -- A call is judged by the rule of its peer alone: 401 without an ACL, without a rule or with an
  -- expired one, else 200 or 429 as the bucket grants a token. Behind it the peer's rule has the
  -- charged bucket, unless it was refused with 401, and every other peer's rule is as it was.
  pub is_call_allowed-verdict :
      (now : ℕ) (peer : A.Address) (acl : Option (Origin A))
      → ((is_call_allowed A now peer acl).0 ≡ verdict now (find_rule A peer (rules_of acl)))
        × ((q : A.Address)
            → find_rule A q (rules_of (is_call_allowed A now peer acl).1) ≡ (
                if A.same peer q
                then charged now (find_rule A peer (rules_of acl))
                else find_rule A q (rules_of acl)))
  unfolding is_call_allowed verdict charged rules_of
  is_call_allowed-verdict now peer none = (
    unfold find_rule in refl,
    λ q. unfold find_rule in elim (Bool-cases (A.same peer q)) [ inl t ↦ rw t | inr f ↦ rw f ],
  )
  is_call_allowed-verdict now peer (some origin) = elim (Option-cases (find_rule A peer origin)) [
    | inl e ↦
        rw (is_call_allowed, e)
          (
            refl,
            λ q. kept peer q origin ∙ ap (λ o. if A.same peer q then o else find_rule A q origin) e,
          )
    | inr (rule, e) ↦ elim (Bool-cases (expired A now rule)) [
      | inl old ↦
          rw (is_call_allowed, e, old)
            (
              refl,
              λ q.
                  kept peer q origin
                  ∙ ap (λ o. if A.same peer q then o else find_rule A q origin) e,
            )
      | inr valid ↦ rw (is_call_allowed, e, valid) (refl, λ q. find_rule-set_rule peer q _ origin)
    ]
  ]
