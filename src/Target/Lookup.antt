-- ===== src/Target/Lookup.antt =====
-- The lookups of `onQueryComplete` of callfwd/ApiHandler.cpp in the routing databases and in that of
-- the carriers, which is searched by the routing number of a number, or by itself where it has none.
use lnr_high_performance.Base.{ℕ, ◌≡◌, refl, List, [], ◌∷◌, map, ◌==◌, if◌then◌else◌}
use lnr_high_performance.Lerg.{LergData}
use lnr_high_performance.PhoneMapping.Rows.{Row, route, first_route}
use lnr_high_performance.PhoneMapping.{none_number}

-- an element that `resize` adds
abbrev pub no_lerg : LergData
no_lerg = record {
  lerg_key = 0;
  state = [];
  company = [];
  ocn = [];
  rate_center = [];
  ocn_type = [];
  lata = [];
  country = [];
}

-- `rn = us_rn_[i]; if (rn == NONE) rn = ca_rn_[i]`, for each i
unfoldable pub routing_numbers : List ℕ → List ℕ → List ℕ
routing_numbers [] ca = []
routing_numbers (u ∷ us) [] = []
routing_numbers (u ∷ us) (c ∷ ca) = (if u == none_number then c else u) ∷ routing_numbers us ca

-- `lerg_search_key[i] = rn` or `pn_[i]`, for each i
unfoldable pub search_keys : List ℕ → List ℕ → List ℕ
search_keys [] pns = []
search_keys (rn ∷ rns) [] = []
search_keys (rn ∷ rns) (pn ∷ pns) = (if rn == none_number then pn else rn) ∷ search_keys rns pns

-- the key of a number in the database of the carriers
abbrev pub search_key : List Row → List Row → ℕ → ℕ
search_key us ca pn = let rn = first_route us ca pn in if rn == none_number then pn else rn

pub routing_numbers-map :
    (us ca : List Row) (pns : List ℕ)
    → routing_numbers (map (route us) pns) (map (route ca) pns) ≡ map (first_route us ca) pns
unfolding routing_numbers first_route
routing_numbers-map us ca [] = refl
routing_numbers-map us ca (pn ∷ pns) = rw (routing_numbers-map us ca pns)

pub search_keys-map :
    (us ca : List Row) (pns : List ℕ)
    → search_keys (map (first_route us ca) pns) pns ≡ map (search_key us ca) pns
unfolding search_keys
search_keys-map us ca [] = refl
search_keys-map us ca (pn ∷ pns) = rw (search_keys-map us ca pns)
