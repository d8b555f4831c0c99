-- ===== src/Lerg/Answers.antt =====
-- A loaded mapping answers by the line of the number's block, and else by that of its exchange.
use lnr_high_performance.Base.{
  ok_err, ok_inj, ℕ, suc, ◌+◌, ◌/◌, ◌<◌, ◌≡◌, inl, inr, refl, sym, ap, ◌∙◌, Bool, true, false,
  Option, none, arith, ◌++◌, some, List, [], ◌∷◌, map, length, Bytes, All, leb, ◌==◌, if◌then◌else◌,
  Result, ok, and_then, done, Result-cases, Option-cases, Bool-cases,
}
use lnr_high_performance.Batch.{batch-map}
use lnr_high_performance.Csv.Lines.{IsLine, text_of, at}
use lnr_high_performance.Csv.{Loaded, load_rows}
use lnr_high_performance.Keyed.Sides.{Entry, Stepped, find_side, load_rows-find}
use lnr_high_performance.Lerg.{
  LergData, Data, columns, is_exchange, key_of, data_of, write, new_data, insert_row, add_row,
  read_line, build, fill, get_lergs,
}
use lnr_high_performance.PhoneMapping.{phone_list, max_rows}
use lnr_high_performance.Vendor.{Folly}
use native.Mathlib.Nat.{le_refl}

-- map 0 is that of the blocks, map 1 that of the exchanges
abbrev side : Bool → ℕ
side exchange = if exchange then 1 else 0

-- the map, the key and the carrier that a line gives
unfoldable pub entry : Bytes → Entry LergData
entry line = and_then (columns line) λ o. elim o [
  | none ↦ ok none
  | some parts ↦
      and_then (key_of parts)
        λ k. and_then (data_of k parts) λ v. ok (some (side (is_exchange parts), k, v))
]

-- the answer for a number, from the lines of a file
unfoldable pub carrier : List Bytes → ℕ × LergData → LergData
carrier ls p =
    let block = write (find_side entry 0 (p.0 / 1000) ls) p.1 in
    if block.lerg_key == 0 then write (find_side entry 1 (p.0 / 1000 / 10) ls) block else block

module _ (F : Folly LergData) where
  abbrev dict : ℕ → Data F → F.Map
  dict s d = if s == 0 then d.dic_npa_nxx_x else if s == 1 then d.dic_npa_nxx else F.empty

  -- the map of a row's kind
  abbrev of : Bool → Data F → F.Map
  of exchange d = if exchange then d.dic_npa_nxx else d.dic_npa_nxx_x

  absent_side :
      (b : Bool) (k : ℕ) (d : Data F) → F.find k (of b d) ≡ none → F.find k (dict (side b) d) ≡ none
  absent_side true k d h = h
  absent_side false k d h = h

  abbrev grown : Bool → ℕ → LergData → Data F → Data F
  grown exchange k v d = record d {
    dic_npa_nxx = if exchange then F.emplace k v d.dic_npa_nxx else d.dic_npa_nxx;
    dic_npa_nxx_x = if exchange then d.dic_npa_nxx_x else F.emplace k v d.dic_npa_nxx_x;
    pn_column = d.pn_column ++ phone_list k max_rows ∷ [];
    lerg_index = d.lerg_index ++ phone_list k max_rows ∷ [];
  }

  entered :
      (b : Bool) (k : ℕ) (v : LergData) (d d' : Data F)
      → grown b k v d ≡ d'
      → (t : ℕ) → dict t d' ≡ (if side b == t then F.emplace k v (dict (side b) d) else dict t d)
  entered true k v d d' h t = sym (ap (dict t) h) ∙ ground arith
  entered false k v d d' h t = sym (ap (dict t) h) ∙ ground arith

  insert_row_ok :
      (b : Bool) (k : ℕ) (value : Result LergData) (d d' : Data F)
      → insert_row F b k value d ≡ ok d'
      → (v : LergData) × (value ≡ ok v)
        × (F.find k (dict (side b) d) ≡ none)
        × ((t : ℕ)
            → dict t d' ≡ (if side b == t then F.emplace k v (dict (side b) d) else dict t d))
  unfolding insert_row
  insert_row_ok b k value d d' h = elim (Option-cases (F.find k (of b d))) [
    | inr (v, e) ↦ absurd (ok_err (rw (e, insert_row) at h))
    | inl absent ↦ elim (Bool-cases (leb max_rows (length d.pn_column))) [
      | inl full ↦ absurd (ok_err (rw (absent, insert_row, full) at h))
      | inr room ↦ elim (Result-cases value) [
        | inr (x, e) ↦ absurd (ok_err (rw (absent, insert_row, room, e) at h))
        | inl (v, e) ↦ (
          v,
          e,
          absent_side b k d absent,
          entered b k v d d' (ok_inj (rw (absent, insert_row, room, e) at h)),
        )
      ]
    ]
  ]

  abbrev Steps : Bytes → Data F → Data F → Type 0
  Steps = Stepped F dict entry (read_line F)

  columns_ok :
      (line : Bytes) (o : Option (List Bytes)) (d d' : Data F)
      → columns line ≡ ok o
      → read_line F line d ≡ ok d'
      → Steps line d d'
  unfolding read_line add_row entry
  columns_ok line none d d' c h =
      let same : d ≡ d' = ok_inj (rw (c, and_then) at h) in
      inl (rw (c, and_then), λ t. ap (dict t) (sym same))
  columns_ok line (some parts) d d' c h = elim (Result-cases (key_of parts)) [
    | inr (x, e) ↦ absurd (ok_err (rw (c, and_then, e) at h))
    | inl (k, e) ↦
        let (v, value, absent, dicts) =
          insert_row_ok (is_exchange parts) k (data_of k parts) d d' (rw (c, and_then, e) at h) in
        inr (side (is_exchange parts), k, v, rw (c, and_then, e, value), absent, dicts)
  ]

  step_ok : (line : Bytes) (d d' : Data F) → read_line F line d ≡ ok d' → Steps line d d'
  unfolding read_line
  step_ok line d d' h = elim (Result-cases (columns line)) [
    | inr (x, e) ↦ absurd (ok_err (rw (e, and_then) at h))
    | inl (o, e) ↦ columns_ok line o d d' e h
  ]

  new_empty : (t : ℕ) → dict t (new_data F) ≡ F.empty
  unfolding new_data
  new_empty t = ground arith

  abbrev pub answer : Data F → ℕ × LergData → LergData
  answer d p =
      let block = write (F.find (p.0 / 1000) d.dic_npa_nxx_x) p.1 in
      if block.lerg_key == 0 then write (F.find (p.0 / 1000 / 10) d.dic_npa_nxx) block else block

  fill-map :
      (d : Data F) (out : List (ℕ × LergData))
      → fill F d
          (map (λ (p : ℕ × LergData). (F.prehash (p.0 / 1000), F.prehash (p.0 / 1000 / 10))) out)
          out
        ≡ map (answer d) out
  unfolding fill
  fill-map d [] = refl
  fill-map d (p ∷ out) = rw (F.find_token-prehash, F.find_token-prehash, fill-map d out)

  -- `getLergs` answers number by number, whatever the batch size
  pub get_lergs-answer :
      (prefetch : ℕ) (d : Data F) (out : List (ℕ × LergData))
      → 0 < prefetch
      → get_lergs F prefetch d out ≡ done (map (answer d) out)
  unfolding get_lergs
  get_lergs-answer prefetch d out pos =
      batch-map _ (answer d) prefetch (fill-map d) pos (length out) out (le_refl _)

  answer-carrier :
      (ls : List Bytes) (d : Data F)
      → ((t j : ℕ) → F.find j (dict t d) ≡ find_side entry t j ls)
      → (out : List (ℕ × LergData)) → map (answer (build F d)) out ≡ map (carrier ls) out
  unfolding build carrier
  answer-carrier ls d reads [] = refl
  answer-carrier ls d reads (p ∷ out) =
      rw (reads 0 (p.0 / 1000), reads 1 (p.0 / 1000 / 10), answer-carrier ls d reads out)

  -- Loading a file of complete lines into a new builder without an exception, whatever the batch
  -- size, and building it: each number of a batch is then answered with the carrier of the first
  -- line of its block (the number divided by 1000); where there is none, or one with key 0, with
  -- that of the first line of its exchange (divided by 10000); else the key is 0.
  pub get_lergs-carrier :
      (k fuel prefetch : ℕ) (ls : List Bytes) (l : Loaded (Data F))
      → All IsLine ls
      → length ls + 1 < fuel
      → 0 < prefetch
      → load_rows (read_line F) (suc k) fuel (at (text_of ls [])) 0 (new_data F) ≡ done l
      → l.thrown ≡ none
      → (out : List (ℕ × LergData))
      → get_lergs F prefetch (build F l.content) out ≡ done (map (carrier ls) out)
  get_lergs-carrier k fuel prefetch ls l lines enough pos run fine out =
      let reads : (t j : ℕ) → F.find j (dict t l.content) ≡ find_side entry t j ls =
        load_rows-find F dict entry (read_line F) step_ok k fuel ls (new_data F) l new_empty lines
          enough run fine in
      get_lergs-answer prefetch (build F l.content) out pos
      ∙ ap done (answer-carrier ls l.content reads out)
