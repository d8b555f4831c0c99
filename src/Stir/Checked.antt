-- ===== src/Stir/Checked.antt =====
-- The early returns of `verifyPassport` in stir/Passport.cpp: a check goes on, or its response is
-- the result. What `d[key]` and `parseJson` throw otherwise leaves the function, which nothing above it catches.
use lnr_high_performance.Base.{
  List, [], ◌∷◌, All, ◌≡◌, refl, Bool, true, false, if◌then◌else◌, Option, none, some, Run, done,
  fault, no_fuel,
}
use lnr_high_performance.Stir.Json.{Caught, value, thrown, Parsed, parsed, parse_error, bad_number}
use lnr_high_performance.Stir.Types.{VerificationResponse}

pub data Checked (A : Type 0) : Type 0 where
  go_on : A → Checked A
  respond : VerificationResponse → Checked A
  throws cut_off : Checked A

infixl 5 ◌then◌
abbrev pub ◌then◌ : {A B : Type 0} → Checked A → (A → Checked B) → Checked B
go_on a then f = f a
respond r then f = respond r
throws then f = throws
cut_off then f = cut_off

-- `if (bad) return response`
abbrev pub unless : Bool → VerificationResponse → Checked Unit
unless true r = respond r
unless false r = go_on tt

abbrev pub lift : {A : Type 0} → Caught A → Checked A
lift (value a) = go_on a
lift (thrown t) = throws

abbrev pub or_respond : {A : Type 0} → Option A → VerificationResponse → Checked A
or_respond none r = respond r
or_respond (some a) r = go_on a

-- `parseJson`, around which only a `parse_error` is caught
abbrev pub or_refuse : {A : Type 0} → Parsed A → VerificationResponse → Checked A
or_refuse (parsed a) r = go_on a
or_refuse parse_error r = respond r
or_refuse bad_number r = throws

-- checks one after the other
unfoldable pub all_checks : List (Checked Unit) → Checked Unit
all_checks [] = go_on tt
all_checks (c ∷ cs) = c then λ (u : Unit). all_checks cs

abbrev pub result : Checked VerificationResponse → Run VerificationResponse
result (go_on r) = done r
result (respond r) = done r
result throws = fault
result cut_off = no_fuel

-- A computation that goes on did so at each step.
pub then-go_on :
    {A B : Type 0} (m : Checked A) (f : A → Checked B) (b : B)
    → (m then f) ≡ go_on b
    → (a : A) × (m ≡ go_on a) × (f a ≡ go_on b)
then-go_on (go_on a) f b h = (a, refl, h)
then-go_on (respond r) f b h = absurd (cc)
then-go_on throws f b h = absurd (cc)
then-go_on cut_off f b h = absurd (cc)

pub unless-go_on :
    (bad : Bool) (r : VerificationResponse) (u : Unit) → unless bad r ≡ go_on u → bad ≡ false
unless-go_on true r u h = absurd (cc)
unless-go_on false r u h = refl

pub lift-go_on : {A : Type 0} (c : Caught A) (a : A) → lift c ≡ go_on a → c ≡ value a
lift-go_on (value b) a h = cc
lift-go_on (thrown t) a h = absurd (cc)

pub or_respond-go_on :
    {A : Type 0} (o : Option A) (r : VerificationResponse) (a : A)
    → or_respond o r ≡ go_on a
    → o ≡ some a
or_respond-go_on none r a h = absurd (cc)
or_respond-go_on (some b) r a h = cc

pub or_refuse-go_on :
    {A : Type 0} (o : Parsed A) (r : VerificationResponse) (a : A)
    → or_refuse o r ≡ go_on a
    → o ≡ parsed a
or_refuse-go_on parse_error r a h = absurd (cc)
or_refuse-go_on bad_number r a h = absurd (cc)
or_refuse-go_on (parsed b) r a h = cc

pub all_checks-go_on :
    (cs : List (Checked Unit)) (u : Unit) → all_checks cs ≡ go_on u → All (λ c. c ≡ go_on tt) cs
unfolding all_checks
all_checks-go_on [] u h = tt
all_checks-go_on (c ∷ cs) u h =
    let (v, hv, rest) = then-go_on c _ u h in (hv, all_checks-go_on cs u rest)
