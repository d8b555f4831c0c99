-- ===== src/Batch.antt =====
-- The loop of every `getXs` (callfwd/PhoneMapping.cpp and its siblings): an array of keys is
-- answered in batches of at most `prefetch`, each hashed first and looked up then.
use lnr_high_performance.Base.{
  ℕ, zero, suc, ◌≤◌, ◌<◌, min, ◌≡◌, refl, sym, ap, ◌∙◌, List, [], ◌∷◌, ◌++◌, map, arith, Run, done,
  no_fuel, ◌>>=◌, length, take, drop, length-drop, take-append-drop,
}
use mathlib.Core.List.{map-append}

-- `while (N > 0) { M = min(N, prefetch); …; pn += M; rn += M; N -= M; }`
unfoldable pub batch : {A B : Type 0} → (List A → List B) → ℕ → ℕ → List A → Run (List B)
batch step prefetch zero [] = done []
batch step prefetch zero (x ∷ xs) = no_fuel
batch step prefetch (suc fuel) [] = done []
batch step prefetch (suc fuel) (x ∷ xs) =
    let m = min (length (x ∷ xs)) prefetch in
    let rest = batch step prefetch fuel (drop m (x ∷ xs)) in
    rest >>= λ out. done (step (take m (x ∷ xs)) ++ out)

-- If a batch is answered key by key, so is the whole array, whatever the batch size.
pub batch-map :
    {A B : Type 0} (step : List A → List B) (f : A → B) (prefetch : ℕ)
    → ((xs : List A) → step xs ≡ map f xs)
    → 0 < prefetch
    → (fuel : ℕ) (xs : List A) → length xs ≤ fuel
    → batch step prefetch fuel xs ≡ done (map f xs)
unfolding batch
batch-map step f prefetch each pos zero [] h = refl
batch-map step f prefetch each pos zero (x ∷ xs) h = absurd (omega arith)
batch-map step f prefetch each pos (suc fuel) [] h = refl
batch-map step f prefetch each pos (suc fuel) (x ∷ xs) h =
    let m = min (length (x ∷ xs)) prefetch in
    let shorter : length (drop m (x ∷ xs)) ≤ fuel = omega (arith, length-drop m (x ∷ xs)) in
    rw (batch-map step f prefetch each pos fuel (drop m (x ∷ xs)) shorter, each (take m (x ∷ xs)))
      (ap done (
        sym (map-append f (take m (x ∷ xs)) (drop m (x ∷ xs)))
        ∙ ap (map f) (take-append-drop m (x ∷ xs))))
