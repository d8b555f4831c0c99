-- ===== src/Acl.antt =====
-- callfwd/ACL.cpp: which peers may call. folly's addresses and token buckets, the reading of a time
-- and of a rate are parameters; `now` is the clock, in the bucket's unit for `consume`.
pub mod Verdict
pub mod Rules
use lnr_high_performance.Base.{
  ℕ, zero, suc, ◌+◌, Bool, true, false, Option, none, some, List, [], ◌∷◌, leb, ◌==◌, if◌then◌else◌,
  length, Bytes, bad_columns, bad_address, bad_time, stream_failure, Error, Result, ok, err,
  and_then, Run, done, no_fuel,
}
use lnr_high_performance.Csv.{Stream, getline}
use lnr_high_performance.Vendor.{FollyText}

pub record Acls : Type 1 where
  pub Address : Type 0
  pub same : Address → Address → Bool
  pub Bucket : Type 0
  pub full : Bucket
  pub consume : ℕ → Bucket → Bool × Bucket
  pub Rate : Type 0
  pub to_rate : Bytes → Option Rate
  pub reset : Rate → Bucket → Bucket
  pub to_address : Bytes → Option Address
  pub read_time : Bytes → Option ℕ

module _ (A : Acls) where
  pub record Rule : Type 0 where
    pub created : ℕ
    pub expire : Option ℕ
    pub call_budget : A.Bucket

  -- `std::unordered_map<IPAddress, Rule>`
  abbrev pub Origin : Type 0
  Origin = List (A.Address × Rule)

  unfoldable pub find_rule : A.Address → Origin → Option Rule
  find_rule a [] = none
  find_rule a (e ∷ rules) = if A.same e.0 a then some e.1 else find_rule a rules

  -- `origin[a] = rule`
  unfoldable pub set_rule : A.Address → Rule → Origin → Origin
  set_rule a rule [] = (a, rule) ∷ []
  set_rule a rule (e ∷ rules) =
      let rest = set_rule a rule rules in if A.same e.0 a then (e.0, rule) ∷ rules else e ∷ rest

  -- `rule.expire && now >= *rule.expire`
  unfoldable pub expired : ℕ → Rule → Bool
  expired now rule = elim rule.expire [ none ↦ false | some time ↦ leb time now ]

  -- `isCallAllowed`: the status, and the rules with the peer's bucket as `consume` leaves it
  unfoldable pub is_call_allowed : ℕ → A.Address → Option Origin → ℕ × Option Origin
  is_call_allowed now peer none = (401, none)
  is_call_allowed now peer (some origin) = elim (find_rule peer origin) [
    | none ↦ (401, some origin)
    | some rule ↦
        if expired now rule
        then (401, some origin)
        else (let (granted, bucket) = A.consume now rule.call_budget in
            (
              if granted then 200 else 429,
              some (set_rule peer (record rule { call_budget = bucket }) origin),
            ))
  ]

  -- the rule that `fromCSV` fills in, and the map
  pub record Reader : Type 0 where
    pub rule : Rule
    pub origin : Origin

  unfoldable pub read_field : Bytes → Option ℕ → Result (Option ℕ)
  read_field [] old = ok old
  read_field (c ∷ s) old = elim (A.read_time (c ∷ s)) [ none ↦ err bad_time | some t ↦ ok (some t) ]

  -- One row. What a row leaves out keeps its value, but for `expire`: `std::move(rule)` empties it.
  unfoldable pub read_row : List Bytes → Reader → Result Reader
  read_row (address ∷ created ∷ expire ∷ rate ∷ []) r =
      and_then (read_field created (some r.rule.created)) λ c.
        and_then (read_field expire r.rule.expire) λ e. elim (A.to_address address) [
          | none ↦ err bad_address
          | some a ↦
              let rule : Rule = record {
                created = elim c [ none ↦ r.rule.created | some t ↦ t ];
                expire = e;
                call_budget = elim (A.to_rate rate) [
                  | none ↦ r.rule.call_budget
                  | some cps ↦ A.reset cps r.rule.call_budget
                ];
              } in
              ok
                (record { rule = record rule { expire = none }; origin = set_rule a rule r.origin })
        ]
  read_row _ r = err bad_columns

  -- the outcome, and the line counter, which counts a row before it is taken
  unfoldable pub from_csv : FollyText → ℕ → Stream → ℕ → Reader → Run (Result Origin × ℕ)
  from_csv T zero s line r = no_fuel
  from_csv T (suc fuel) s line r = elim s.eof [
    | true ↦ done (err stream_failure, line)
    | false ↦ elim s.bytes [
      | [] ↦ done (ok r.origin, line)
      | c ∷ cs ↦
          let (text, s') = getline (c ∷ cs) in
          elim (read_row (T.split b',' text) r) [
            | err e ↦ done (err e, line + 1)
            | ok r' ↦ from_csv T fuel s' (line + 1) r'
          ]
    ]
  ]
