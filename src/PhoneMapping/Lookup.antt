-- ===== src/PhoneMapping/Lookup.antt =====
-- `getRNs` and `getRN` answer every key as a single lookup would.
use lnr_high_performance.Base.{
  ℕ, ◌<◌, ◌≡◌, refl, List, [], ◌∷◌, map, length, Option, none, some, done,
}
use lnr_high_performance.Batch.{batch-map}
use lnr_high_performance.PhoneMapping.Rows.{or_none}
use lnr_high_performance.PhoneMapping.{Data, fill_rns, get_rns, get_rn, none_number}
use lnr_high_performance.Vendor.{Folly}
use native.Mathlib.Nat.{le_refl}

or_none-lem : (o : Option ℕ) → (elim o [ some rn ↦ rn | none ↦ none_number ]) ≡ or_none o
or_none-lem none = refl
or_none-lem (some n) = refl

module _ (F : Folly ℕ) (prefetch : ℕ) where
  fill_rns-map :
      (dict : F.Map) (pns : List ℕ)
      → fill_rns F prefetch dict (map F.prehash pns) pns ≡ map (λ pn. or_none (F.find pn dict)) pns
  unfolding fill_rns
  fill_rns-map dict [] = refl
  fill_rns-map dict (pn ∷ pns) = rw (F.find_token-prehash, or_none-lem, fill_rns-map dict pns)

  -- With a positive batch size `getRNs` ends, and answers each key with the value that the map
  -- holds for it, or with NONE; the batches and the prehashed tokens do not show.
  pub get_rns-find :
      (d : Data F) (pns : List ℕ)
      → 0 < prefetch
      → get_rns F prefetch d pns ≡ done (map (λ pn. or_none (F.find pn d.dict)) pns)
  unfolding get_rns
  get_rns-find d pns pos =
      batch-map _ (λ pn. or_none (F.find pn d.dict)) prefetch (fill_rns-map d.dict) pos (length pns)
        pns (le_refl _)

  pub get_rn-find :
      (d : Data F) (pn : ℕ)
      → 0 < prefetch
      → get_rn F prefetch d pn ≡ done (or_none (F.find pn d.dict))
  unfolding get_rn
  get_rn-find d pn pos = rw (get_rns-find d (pn ∷ []) pos)
