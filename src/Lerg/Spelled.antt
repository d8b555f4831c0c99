-- ===== src/Lerg/Spelled.antt =====
-- What the lines of LERG files say, for callfwd/LergMapping.cpp: rows of blocks and of exchanges.
use lnr_high_performance.Base.{
  ℕ, ◌+◌, ◌*◌, ◌%◌, ◌^◌, ◌≡◌, ◌⊎◌, inl, inr, refl, sym, ap, true, false, Option, none, arith, some,
  List, [], ◌∷◌, length, Bytes, ◌==◌, if◌then◌else◌, is_empty, ok,
}
use lnr_high_performance.Lerg.Answers.{entry}
use lnr_high_performance.Lerg.{LergData, columns, is_exchange, key_of, text_field, data_of}
use lnr_high_performance.Text.Columns.{Written, split_line-Written}
use lnr_high_performance.Text.{stoll, starts_digit, field}

-- 0 for a block and 1 for an exchange, the key, and the carrier
abbrev pub Row : Type 0
Row = ℕ × ℕ × LergData

-- a row of a block has a blank where the file has nothing
abbrev pub or_blank : Bytes → Bytes
or_blank [] = b' ' ∷ []
or_blank (c ∷ s) = c ∷ s

abbrev pub block : ℕ → (state company ocn rate_center ocn_type lata country : Bytes) → Row
block key state company ocn rate_center ocn_type lata country = (
  0,
  key,
  record {
    lerg_key = key;
    state = or_blank state;
    company = or_blank company;
    ocn = or_blank ocn;
    rate_center = or_blank rate_center;
    ocn_type = or_blank ocn_type;
    lata = or_blank lata;
    country = or_blank country;
  },
)

abbrev pub exchange : ℕ → (state company ocn rate_center ocn_type lata country : Bytes) → Row
exchange key state company ocn rate_center ocn_type lata country = (
  1,
  key,
  record {
    lerg_key = key;
    state = state;
    company = company;
    ocn = ocn;
    rate_center = rate_center;
    ocn_type = ocn_type;
    lata = lata;
    country = country;
  },
)

-- What a line says. One that starts with no digit is skipped; any other is a row of ten columns: two
-- numbers, a third that may be empty, and the texts of the carrier.
abbrev pub Spells : Bytes → Option Row → Type 0
Spells line none = starts_digit line ≡ false
Spells line (some e) =
    (npa nxx x state company ocn rate_center ocn_type lata country : Bytes) × (a b : ℕ) × Written
      (npa ∷ nxx ∷ x ∷ state ∷ company ∷ ocn ∷ rate_center ∷ ocn_type ∷ lata ∷ country ∷ []) line
    × (starts_digit line ≡ true)
    × (stoll npa ≡ ok a)
    × (stoll nxx ≡ ok b)
    × (((x ≡ [])
          × (e
              ≡ exchange ((a * 1000 + b) % 2 ^ 64) state company ocn rate_center ocn_type lata
                  country))
        ⊎ ((c : ℕ) × (is_empty x ≡ false)
            × (stoll x ≡ ok c)
            × (e
                ≡ block ((a * 10000 + b * 10 + c) % 2 ^ 64) state company ocn rate_center ocn_type
                    lata country)))

texts_blank : (s : Bytes) → (if length s == 0 then b' ' ∷ [] else s) ≡ or_blank s
texts_blank [] = refl
texts_blank (c ∷ s) = ground arith

is_exchange_full :
    (npa nxx : Bytes) (y : ℕ) (x : Bytes) (more : List Bytes)
    → is_exchange (npa ∷ nxx ∷ (y ∷ x) ∷ more) ≡ false
unfolding is_exchange
is_exchange_full npa nxx y x more = ground arith

pub entry-Spells : (line : Bytes) (e : Option Row) → Spells line e → entry line ≡ ok e
unfolding entry columns key_of data_of text_field is_exchange field
entry-Spells line none h = rw h refl
entry-Spells line (some e)
      (
        npa,
        nxx,
        x,
        state,
        company,
        ocn,
        rate_center,
        ocn_type,
        lata,
        country,
        a,
        b,
        w,
        d,
        n0,
        n1,
        inl (empty, v),
      ) =
    rw
      (
        split_line-Written
            (npa ∷ nxx ∷ x ∷ state ∷ company ∷ ocn ∷ rate_center ∷ ocn_type ∷ lata ∷ country ∷ [])
            line w,
        d,
        empty,
        n0,
        n1,
      )
      (ap (λ y. ok (some y)) (sym v))
entry-Spells line (some e)
      (
        npa,
        nxx,
        [],
        state,
        company,
        ocn,
        rate_center,
        ocn_type,
        lata,
        country,
        a,
        b,
        w,
        d,
        n0,
        n1,
        inr (c, full, n2, v),
      ) =
    absurd (cc)
entry-Spells line (some e)
      (
        npa,
        nxx,
        y ∷ x,
        state,
        company,
        ocn,
        rate_center,
        ocn_type,
        lata,
        country,
        a,
        b,
        w,
        d,
        n0,
        n1,
        inr (c, full, n2, v),
      ) =
    rw
      (
        split_line-Written
            (npa
              ∷ nxx
              ∷ (y ∷ x)
              ∷ state
              ∷ company
              ∷ ocn
              ∷ rate_center
              ∷ ocn_type
              ∷ lata
              ∷ country
              ∷ [])
            line w,
        d,
        n0,
        n1,
        n2,
        is_exchange_full,
        texts_blank state,
        texts_blank company,
        texts_blank ocn,
        texts_blank rate_center,
        texts_blank ocn_type,
        texts_blank lata,
        texts_blank country,
      )
      (ap (λ y. ok (some y)) (sym v))
