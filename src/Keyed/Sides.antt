-- ===== src/Keyed/Sides.antt =====
-- Builders that enter the lines of a file in one of several maps, told apart by a number.
use lnr_high_performance.Base.{
  done_inj, some-none, ℕ, suc, ◌+◌, ◌<◌, ◌≡◌, ◌⊎◌, inl, inr, refl, sym, ap, ◌∙◌, ◌&&◌, Option, none,
  some, List, [], ◌∷◌, ◌==◌, if◌then◌else◌, length, Bytes, All, Result, ok, err, done, Result-cases,
  Bool-cases, ==_iff,
}
use lnr_high_performance.Csv.Lines.{IsLine, text_of, at, Outcome, outcome, run_lines}
use lnr_high_performance.Csv.Load.{load_rows-run_lines}
use lnr_high_performance.Csv.{Loaded, load_rows}
use lnr_high_performance.Vendor.{Folly}

-- the map, the key and the value that a line gives
abbrev pub Entry : Type 0 → Type 0
Entry V = Result (Option (ℕ × ℕ × V))

module _ {V : Type 0} (entry : Bytes → Entry V) where
  -- the value of the first line for this map with this key
  unfoldable pub find_side : ℕ → ℕ → List Bytes → Option V
  find_side s k [] = none
  find_side s k (l ∷ ls) =
      let rest = find_side s k ls in
      elim (entry l) [
        | err e ↦ rest
        | ok o ↦ elim o [
          | none ↦ rest
          | some e ↦ if (e.0 == s) && (e.1 == k) then some e.2 else rest
        ]
      ]

module _ {V D : Type 0} (F : Folly V) (dict : ℕ → D → F.Map) (entry : Bytes → Entry V)
    (step : Bytes → D → Result D) where
  -- a line that is accepted changes no map, or enters a new key in one
  abbrev pub Stepped : Bytes → D → D → Type 0
  Stepped line d d' =
      ((entry line ≡ ok none) × ((t : ℕ) → dict t d' ≡ dict t d))
      ⊎ ((s : ℕ) × (k : ℕ) × (v : V) × (entry line ≡ ok (some (s, k, v)))
          × (F.find k (dict s d) ≡ none)
          × ((t : ℕ) → dict t d' ≡ (if s == t then F.emplace k v (dict s d) else dict t d)))

  module _ (steps : (line : Bytes) (d d' : D) → step line d ≡ ok d' → Stepped line d d') where
    abbrev found : Option V → Option V → Option V
    found none o = o
    found (some v) o = some v

    found-none : (o : Option V) → o ≡ found o none
    found-none none = refl
    found-none (some v) = refl

    find-Stepped :
        (t j : ℕ) (line : Bytes) (ls : List Bytes) (d d' : D)
        → Stepped line d d'
        → found (F.find j (dict t d')) (find_side entry t j ls)
          ≡ found (F.find j (dict t d)) (find_side entry t j (line ∷ ls))
    unfolding find_side
    find-Stepped t j line ls d d' (inl (e, same)) = rw (find_side, e, same t)
    find-Stepped t j line ls d d' (inr (s, k, v, e, absent, dicts)) = elim (Bool-cases (s == t)) [
      | inr other ↦ rw (find_side, e, dicts t, other)
      | inl this ↦
          rw (find_side, e, dicts t, this, F.find-emplace k j v (dict s d) absent)
            (elim (Bool-cases (k == j)) [
              | inl hit ↦ rw (hit, ← (==_iff s t).0 this, ← (==_iff k j).0 hit, absent)
              | inr miss ↦ rw miss (
                  ap (λ x. found (F.find j (dict x d)) (find_side entry t j ls))
                    ((==_iff s t).0 this))
            ])
    ]

    find-run_lines :
        (t j : ℕ) (ls : List Bytes) (line n : ℕ) (d d' : D)
        → run_lines step ls line d ≡ (d', n, none)
        → F.find j (dict t d') ≡ found (F.find j (dict t d)) (find_side entry t j ls)
    unfolding run_lines find_side
    find-run_lines t j [] line n d d' h =
        ap (λ (r : Outcome step). F.find j (dict t r.0)) (sym h) ∙ found-none (F.find j (dict t d))
    find-run_lines t j (l ∷ ls) line n d d' h = elim (Result-cases (step l d)) [
      | inr (x, e) ↦ absurd (some-none (ap (λ (r : Outcome step). r.2) (rw (e, run_lines) at h)))
      | inl (d1, e) ↦
          find-run_lines t j ls (line + 1) n d1 d' (rw (e, run_lines) at h)
          ∙ find-Stepped t j l ls d d1 (steps l d d1 e)
    ]

    -- After a load without an exception each map holds the first line of each of its keys.
    pub load_rows-find :
        (k fuel : ℕ) (ls : List Bytes) (d : D) (l : Loaded D)
        → ((t : ℕ) → dict t d ≡ F.empty)
        → All IsLine ls
        → length ls + 1 < fuel
        → load_rows step (suc k) fuel (at (text_of ls [])) 0 d ≡ done l
        → l.thrown ≡ none
        → (t j : ℕ) → F.find j (dict t l.content) ≡ find_side entry t j ls
    load_rows-find k fuel ls d l new lines enough run fine t j =
        let (l', run', same) = load_rows-run_lines step k fuel ls 0 d lines enough in
        let e : l' ≡ l = done_inj (sym run' ∙ run) in
        let taken : run_lines step ls 0 d ≡ (l.content, l.line, none) =
          sym same ∙ ap (outcome step) e ∙ ap (λ o. (l.content, l.line, o)) fine in
        find-run_lines t j ls 0 l.line d l.content taken ∙ rw (new t, F.find-empty)
