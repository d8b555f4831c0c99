-- ===== src/Service.antt =====
-- `ApiHandlerFactory` of callfwd/ApiHandler.cpp: which handler a request gets; and what a request
-- finds in the worlds that the control socket leads to.
use lnr_high_performance.Acl.{Acls, Reader}
use lnr_high_performance.Base.{
  ℕ, arith, ◌<◌, ◌≡◌, ◌⊎◌, inl, inr, refl, ap, Bool, true, false, ◌&&◌, Option, none, some, List,
  [], ◌++◌, map, ◌∙◌, if◌then◌else◌, Bytes, done, is_some, Bool-cases,
}
use lnr_high_performance.Control.Reachable.{Reach, Reach-Keeps}
use lnr_high_performance.Control.Server.{World}
use lnr_high_performance.Control.Serving.{Built, Serves, Keeps}
use lnr_high_performance.Control.{Maps, Globals, is_available}
use lnr_high_performance.PhoneMapping.Builder.{Holds}
use lnr_high_performance.PhoneMapping.Rows.{Row}
use lnr_high_performance.PhoneMapping.{Data, build}
use lnr_high_performance.Reverse.Body.{concat}
use lnr_high_performance.Reverse.{events_of}
use lnr_high_performance.Target.Answer.{facts_of, on_query_complete-records}
use lnr_high_performance.Target.Page.{Source, on_query_complete}
use lnr_high_performance.Target.Record.{record_text}
use lnr_high_performance.Text.{codes, same_text}
use lnr_high_performance.Vendor.{FollyText}

-- the handlers that the factory makes; `direct` sends this status and nothing else
pub data Handler : Type 0 where
  target reverse : Handler
  direct : ℕ → Handler

-- `makeHandler`
unfoldable pub make_handler : {M : Maps} → Globals M → Handler → Handler
make_handler g h = if is_available g then h else direct 503

-- `onRequest`
unfoldable pub on_request : {M : Maps} → Globals M → Bytes → Handler
on_request g path =
    if same_text path (codes "/target")
    then make_handler g target
    else if same_text path (codes "/reverse")
    then make_handler g reverse
    else direct 404

-- a process that has loaded nothing
abbrev pub blank : (M : Maps) (A : Acls) → World M A
blank M A = record {
  globals = record {
    us = none;
    ca = none;
    dnc = none;
    dno = none;
    toll_free = none;
    lerg = none;
    youmail = none;
    geo = none;
    ftc = none;
    f404 = none;
    f606 = none;
  };
  acl = none;
}

false-true : ¬ (false ≡ true)
false-true h = cc

module _ (M : Maps) (prefetch : Source → ℕ) (show : ℕ → Bytes) where
  -- the two databases hold rows, and the numbers are answered by them
  abbrev pub Answered : Globals M → Bool → List ℕ → Type 0
  Answered g json pns =
      (us ca : List Row) × (us_data ca_data : Data M.numbers) × Holds M.numbers us us_data
      × Holds M.numbers ca ca_data
      × (g.us ≡ some (build M.numbers us_data))
      × (g.ca ≡ some (build M.numbers ca_data))
      × (on_query_complete M prefetch show g json pns
          ≡ done (
              events_of json [] (
                (if json then codes "[\n" else [])
                ++ (concat (map (λ pn. record_text show json (facts_of M g us ca pn)) pns)
                    ++ (if json then codes "]\n" else [])))))

  module _ (pos : (s : Source) → 0 < prefetch s) (g : Globals M) (json : Bool) (pns : List ℕ) where
    Built-Answered :
        (us ca : Option (Data M.numbers))
        → g.us ≡ us
        → g.ca ≡ ca
        → Built M.numbers us
        → Built M.numbers ca
        → (is_some us && is_some ca) ≡ true
        → Answered g json pns
    Built-Answered none ca e f u c ready = absurd (false-true ready)
    Built-Answered (some d) none e f u c ready = absurd (false-true ready)
    Built-Answered (some d) (some d') e f (us, us_data, u, p) (ca, ca_data, c, q) ready =
        let there = e ∙ ap some p in
        let there' = f ∙ ap some q in
        (
          us,
          ca,
          us_data,
          ca_data,
          u,
          c,
          there,
          there',
          on_query_complete-records M g us ca prefetch pos u c show json pns there there',
        )

    Serves-Answered : Serves g → is_available g ≡ true → Answered g json pns
    unfolding is_available
    Serves-Answered (u, c) ready = Built-Answered g.us g.ca refl refl u c ready

module _ (T : FollyText) (M : Maps) (A : Acls) (start : Reader A) (show : ℕ → Bytes) (f14 fuel : ℕ)
    (prefetch : Source → ℕ) (pos : (s : Source) → 0 < prefetch s) where
  -- In every world that messages lead to from an empty one, a request for /target gets a handler
  -- once both routing databases are loaded, and 503 before. What the handler then answers to any
  -- numbers are their records: no null database is dereferenced and no array is left.
  pub on_request-Answered :
      {w : World M A}
      → Reach T M A start show f14 fuel (blank M A) w
      → (json : Bool) (pns : List ℕ)
      → ((is_available w.globals ≡ true)
          × (on_request w.globals (codes "/target") ≡ target)
          × Answered M prefetch show w.globals json pns)
        ⊎ ((is_available w.globals ≡ false) × (on_request w.globals (codes "/target") ≡ direct 503))
  unfolding on_request make_handler same_text
  on_request-Answered {w} path json pns = elim (Bool-cases (is_available w.globals)) [
    | inl ready ↦
        let kept = Reach-Keeps T M A start show f14 fuel path in
        inl (
          ready,
          rw ready,
          Serves-Answered M prefetch show pos w.globals json pns (kept.serves (tt, tt)) ready,
        )
    | inr not_yet ↦ inr (not_yet, rw not_yet)
  ]

-- where both databases are loaded, they are so later
ready_later :
    {M : Maps} (g g' : Globals M) → Keeps g g' → is_available g ≡ true → is_available g' ≡ true
unfolding is_available
ready_later g g' kept ready = ground (arith, kept.us, kept.ca)

not_target : ¬ (direct 503 ≡ target)
not_target h = cc

module _ (T : FollyText) (M : Maps) (A : Acls) (start : Reader A) (show : ℕ → Bytes)
    (f14 fuel : ℕ) where
  -- Once a request for /target gets a handler, no messages take the service away again.
  pub on_request_stays :
      {w w' : World M A}
      → Reach T M A start show f14 fuel w w'
      → on_request w.globals (codes "/target") ≡ target
      → on_request w'.globals (codes "/target") ≡ target
  unfolding on_request make_handler same_text
  on_request_stays {w} {w'} path found = elim (Bool-cases (is_available w.globals)) [
    | inr not_yet ↦ absurd (not_target (rw not_yet at found))
    | inl ready ↦
        let kept = Reach-Keeps T M A start show f14 fuel path in
        rw (ready_later w.globals w'.globals kept ready)
  ]
