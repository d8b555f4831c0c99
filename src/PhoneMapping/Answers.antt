-- ===== src/PhoneMapping/Answers.antt =====
-- What a built mapping answers: lookups, and the listing of a range of routing numbers.
use lnr_high_performance.Base.{ℕ, ◌<◌, ◌≡◌, refl, ap, ◌∙◌, List, [], ◌∷◌, map, done}
use lnr_high_performance.PhoneMapping.Builder.{Holds}
use lnr_high_performance.PhoneMapping.Lookup.{get_rns-find}
use lnr_high_performance.PhoneMapping.Rows.{Row, or_none, route, find_row}
use lnr_high_performance.PhoneMapping.{Data, build, get_rns}
use lnr_high_performance.Vendor.{Folly}

module _ (F : Folly ℕ) (prefetch : ℕ) (pos : 0 < prefetch) {rows : List Row} {d : Data F}
    (h : Holds F rows d) where
  -- A built mapping answers a batch of any length with the routing number of the row of each
  -- number, or NONE where there is no row.
  pub get_rns-route :
      (pns : List ℕ) → get_rns F prefetch (build F d) pns ≡ done (map (route rows) pns)
  unfolding build route
  get_rns-route pns = get_rns-find F prefetch (build F d) pns pos ∙ ap done (go pns)
    where
      go :
          (ns : List ℕ)
          → map (λ n. or_none (F.find n d.dict)) ns ≡ map (λ n. or_none (find_row n rows)) ns
      go [] = refl
      go (n ∷ ns) = rw (h.reads n, go ns)
