-- ===== src/Lerg/Rows.antt =====
-- How a loaded mapping of callfwd/LergMapping.cpp answers by the rows of its file.
use lnr_high_performance.Base.{
  ℕ, suc, ◌+◌, ◌/◌, ◌<◌, ◌≡◌, refl, ap, ◌∙◌, Option, none, arith, some, List, [], ◌∷◌, map, length,
  Bytes, All, ◌==◌, ◌&&◌, if◌then◌else◌, done,
}
use lnr_high_performance.Csv.Lines.{IsLine, text_of, at}
use lnr_high_performance.Csv.{Loaded, load_rows}
use lnr_high_performance.Keyed.Sides.{find_side}
use lnr_high_performance.Keyed.Spelled.{Spelled}
use lnr_high_performance.Lerg.Spelled.{Row, Spells, entry-Spells}
use lnr_high_performance.Lerg.Answers.{entry, carrier, get_lergs-carrier}
use lnr_high_performance.Lerg.{LergData, Data, write, new_data, read_line, build, get_lergs}
use lnr_high_performance.Vendor.{Folly}

-- the first carrier of this kind and key
abbrev pub first_row : ℕ → ℕ → List (Option Row) → Option LergData
first_row kind key [] = none
first_row kind key (none ∷ es) = first_row kind key es
first_row kind key (some e ∷ es) =
    if (e.0 == kind) && (e.1 == key) then some e.2 else first_row kind key es

-- what an answer becomes for the carrier of the exchange, or for none
abbrev pub with_exchange : Option LergData → LergData → LergData
with_exchange none old = record old { lerg_key = 0 }
with_exchange (some v) old = v

-- the carrier of the block where there is one with a key, and else that of the exchange
abbrev pub with_block : Option LergData → Option LergData → LergData → LergData
with_block none second old = with_exchange second (record old { lerg_key = 0 })
with_block (some v) second old = if v.lerg_key == 0 then with_exchange second v else v

find_side-first_row :
    (kind key : ℕ) (ls : List Bytes) (es : List (Option Row))
    → Spelled Spells ls es
    → find_side entry kind key ls ≡ first_row kind key es
unfolding find_side
find_side-first_row kind key [] [] h = refl
find_side-first_row kind key [] (e ∷ es) h = absurd h
find_side-first_row kind key (l ∷ ls) [] h = absurd h
find_side-first_row kind key (l ∷ ls) (none ∷ es) h =
    rw (find_side, entry-Spells l none h.0) (find_side-first_row kind key ls es h.1)
find_side-first_row kind key (l ∷ ls) (some e ∷ es) h =
    rw (find_side, entry-Spells l (some e) h.0, find_side-first_row kind key ls es h.1) refl

write-with_exchange : (o : Option LergData) (old : LergData) → write o old ≡ with_exchange o old
unfolding write
write-with_exchange none old = refl
write-with_exchange (some v) old = refl

write-with_block :
    (first second : Option LergData) (old : LergData)
    → (let b = write first old in if b.lerg_key == 0 then write second b else b)
      ≡ with_block first second old
unfolding write
write-with_block none second old = write-with_exchange second (record old { lerg_key = 0 })
write-with_block (some v) second old = rw (write-with_exchange second v) refl

carrier-with_block :
    (ls : List Bytes) (es : List (Option Row))
    → Spelled Spells ls es
    → (out : List (ℕ × LergData))
    → map (carrier ls) out
      ≡ map
          (λ (p : ℕ × LergData).
            with_block (first_row 0 (p.0 / 1000) es) (first_row 1 (p.0 / 10000) es) p.1)
          out
unfolding carrier
carrier-with_block ls es h [] = refl
carrier-with_block ls es h (p ∷ out) =
    let tens : p.0 / 1000 / 10 ≡ p.0 / 10000 = omega arith in
    rw
      (
        find_side-first_row 0 (p.0 / 1000) ls es h,
        find_side-first_row 1 (p.0 / 1000 / 10) ls es h,
        tens,
        carrier-with_block ls es h out,
      )
      (ap
        (λ x.
          x
          ∷ map
              (λ (p : ℕ × LergData).
                with_block (first_row 0 (p.0 / 1000) es) (first_row 1 (p.0 / 10000) es) p.1)
              out)
        (write-with_block _ _ p.1))

-- Loading a file of complete lines into a new builder without an exception, whatever the batch size,
-- and building it: each number of a batch is then answered with the carrier of the first row of its
-- block (the number divided by 1000), where there is one and its key is not 0; else with that of the
-- first row of its exchange (divided by 10000); where there is none either, the key is 0 and the
-- other fields stay, as they were or as a block of key 0 has them. Every line is skipped or says a row: it is one of an exchange where the third
-- column is empty, and else one of a block, whose empty texts become a blank.
pub get_lergs-load :
    (F : Folly LergData) (k fuel prefetch : ℕ) (ls : List Bytes) (es : List (Option Row))
    (l : Loaded (Data F))
    → Spelled Spells ls es
    → All IsLine ls
    → length ls + 1 < fuel
    → 0 < prefetch
    → load_rows (read_line F) (suc k) fuel (at (text_of ls [])) 0 (new_data F) ≡ done l
    → l.thrown ≡ none
    → (out : List (ℕ × LergData))
    → get_lergs F prefetch (build F l.content) out
      ≡ done (
          map
            (λ (p : ℕ × LergData).
              with_block (first_row 0 (p.0 / 1000) es) (first_row 1 (p.0 / 10000) es) p.1)
            out)
get_lergs-load F k fuel prefetch ls es l spelled lines enough pos run fine out =
    get_lergs-carrier F k fuel prefetch ls l lines enough pos run fine out
    ∙ ap done (carrier-with_block ls es spelled out)
