-- ===== src/Target/Columns.antt =====
-- What the columns that `onQueryComplete` of callfwd/ApiHandler.cpp fills hold at each number.
use lnr_high_performance.Base.{
  ℕ, zero, suc, ◌<◌, ◌≡◌, refl, ap, Option, none, some, List, [], ◌∷◌, map, map-map, get_elem?, Run,
  done,
}
use lnr_high_performance.Keyed.Answers.{answer, get_all-find}
use lnr_high_performance.Keyed.{Table, get_all}
use lnr_high_performance.Target.Page.{fetch, element, at}
use lnr_high_performance.Vendor.{Folly}

-- what a database that is loaded says
abbrev pub each : {D A : Type 0} → Option D → (D → A) → Option A
each none f = none
each (some d) f = some (f d)

pub fetch-each :
    {D A : Type 0} (get : D → List (ℕ × A) → Run (List A)) (f : D → ℕ × A → A) (blank : A)
    (keys : List ℕ) (o : Option D)
    → ((d : D) (out : List (ℕ × A)) → get d out ≡ done (map (f d) out))
    → fetch get blank keys o ≡ done (each o (λ d. map (λ k. f d (k, blank)) keys))
unfolding fetch
fetch-each get f blank keys none h = refl
fetch-each get f blank keys (some d) h =
    rw (h d (map (λ k. (k, blank)) keys))
      (ap (λ xs. done (some xs)) (map-map (f d) (λ k. (k, blank)) keys))

get_elem?-map :
    {A B : Type 0} (f : A → B) (xs : List A) (i : ℕ) {a : A}
    → get_elem? xs i ≡ some a
    → get_elem? (map f xs) i ≡ some (f a)
get_elem?-map f [] i h = cc
get_elem?-map f (x ∷ xs) zero h = cc
get_elem?-map f (x ∷ xs) (suc i) h = get_elem?-map f xs i h

pub at-map :
    (f : ℕ → ℕ) (pns : List ℕ) (i : ℕ) {pn : ℕ}
    → get_elem? pns i ≡ some pn
    → at (map f pns) i ≡ done (f pn)
unfolding at
at-map f pns i h = rw (at, get_elem?-map f pns i h)

pub at_self : (pns : List ℕ) (i : ℕ) {pn : ℕ} → get_elem? pns i ≡ some pn → at pns i ≡ done pn
unfolding at
at_self pns i h = rw (at, h)

pub element-each :
    {D A : Type 0} (o : Option D) (f : D → ℕ → A) (pns : List ℕ) (i : ℕ) {pn : ℕ}
    → get_elem? pns i ≡ some pn
    → element (each o (λ d. map (f d) pns)) i ≡ done (each o (λ d. f d pn))
unfolding element
element-each none f pns i h = refl
element-each (some d) f pns i h = rw (element, get_elem?-map (f d) pns i h)

pub each-map :
    {D A : Type 0} (o : Option D) (f : D → ℕ → A) (h : ℕ → ℕ) (xs : List ℕ)
    → each o (λ d. map (f d) (map h xs)) ≡ each o (λ d. map (λ x. f d (h x)) xs)
each-map none f h xs = refl
each-map (some d) f h xs = ap some (map-map (f d) h xs)

pub fetch-keyed :
    {V R : Type 0} (F : Folly V) (key : ℕ → ℕ) (hit : V → R) (miss : R → R) (prefetch : ℕ)
    (blank : R) (pns : List ℕ) (o : Option (Table F))
    → 0 < prefetch
    → fetch (λ d out. get_all F key hit miss prefetch d out) blank pns o
      ≡ done (each o (λ d. map (λ pn. answer hit miss (F.find (key pn) d.dict) blank) pns))
fetch-keyed F key hit miss prefetch blank pns o pos =
    fetch-each _ (λ d p. answer hit miss (F.find (key p.0) d.dict) p.1) blank pns o
      (λ d out. get_all-find F key hit miss prefetch d out pos)

-- What a loaded database says of one number.
