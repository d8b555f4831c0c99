-- ===== src/Geo.antt =====
-- callfwd/GeoMapping.cpp: the place of a number's first digits.
use lnr_high_performance.Base.{
  true, sym, ap, leb, arith, ℕ, suc, ◌+◌, ◌/◌, ◌<◌, ◌≡◌, Option, none, some, List, [], ◌∷◌, map,
  length, Bytes, leb, if◌then◌else◌, get_or, All, bad_columns, Result, ok, err, and_then, Run, done,
  ◌>>=◌,
}
use lnr_high_performance.Csv.Lines.{IsLine, text_of, at}
use lnr_high_performance.Csv.{Loaded, load_rows}
use lnr_high_performance.Keyed.Spelled.{Spelled, first_of, load_rows-first_of}
use lnr_high_performance.Keyed.Answers.{answer, entry}
use lnr_high_performance.Text.Columns.{Written, split_line-Written}
use lnr_high_performance.Keyed.{Table, new_table, insert_row, get_all, with_columns}
use lnr_high_performance.Keyed
use lnr_high_performance.Text.{stoll, split_line, field}
use lnr_high_performance.Vendor.{Folly}

pub record GeoData : Type 0 where
  pub npanxx : ℕ
  pub zipcode : Bytes
  pub county : Bytes
  pub city : Bytes
  pub latitude : Bytes
  pub longitude : Bytes
  pub timezone : Bytes

-- the tests of `fromCSV` on a line, and its columns
unfoldable pub columns : Bytes → Result (Option (List Bytes))
columns line =
    let parts = split_line line in
    if leb 19 (length parts) then ok (some parts) else err bad_columns

-- the key that `addRow` computes
unfoldable pub key_of : List Bytes → Result ℕ
key_of parts = and_then (field 0 parts) stoll

-- the value that `addRow` fills in
unfoldable pub data_of : ℕ → List Bytes → Result GeoData
data_of npanxx parts = and_then (field 1 parts) λ zipcode. and_then (field 10 parts) λ county.
    and_then (field 6 parts) λ city. and_then (field 9 parts) λ latitude.
      and_then (field 11 parts) λ longitude. and_then (field 19 parts) λ timezone. ok (record {
        npanxx = npanxx;
        zipcode = zipcode;
        county = county;
        city = city;
        latitude = latitude;
        longitude = longitude;
        timezone = timezone;
      })

-- what an answer becomes for which there is no entry: its other fields stay
abbrev pub missing : GeoData → GeoData
missing old = record old { npanxx = 0 }

-- What a line says: it is a row of at least twenty columns, of which the first reads as the first
-- digits of a number, and the second, seventh, tenth, eleventh, twelfth and twentieth are kept.
abbrev pub Spells : Bytes → Option (ℕ × GeoData) → Type 0
Spells line none = ⊥
Spells line (some e) =
    (number zipcode c2 c3 c4 c5 city c7 c8 latitude county longitude : Bytes) × (c12 c13 c14 c15 c16
      c17 c18 timezone : Bytes)
    × (more : List Bytes) × Written
        (number ∷ zipcode ∷ c2 ∷ c3 ∷ c4 ∷ c5 ∷ city ∷ c7 ∷ c8 ∷ latitude ∷ county ∷ longitude ∷ c12
          ∷ c13 ∷ c14 ∷ c15 ∷ c16 ∷ c17 ∷ c18 ∷ timezone ∷ more)
        line
    × (stoll number ≡ ok e.0)
    × (e.1 ≡ record {
      npanxx = e.0;
      zipcode = zipcode;
      county = county;
      city = city;
      latitude = latitude;
      longitude = longitude;
      timezone = timezone;
    })

entry-Spells :
    (line : Bytes) (e : Option (ℕ × GeoData))
    → Spells line e
    → entry columns key_of (λ k. k) data_of line ≡ ok e
unfolding entry columns key_of data_of field
entry-Spells line none h = absurd h
entry-Spells line (some e)
      (
        number, zipcode, c2, c3, c4, c5, city, c7, c8, latitude, county, longitude, c12, c13, c14,
        c15, c16, c17, c18, timezone, more, w, n, v,
      ) =
    let wide : leb 19 (
          length (
            number ∷ zipcode ∷ c2 ∷ c3 ∷ c4 ∷ c5 ∷ city ∷ c7 ∷ c8 ∷ latitude ∷ county ∷ longitude
            ∷ c12 ∷ c13 ∷ c14 ∷ c15 ∷ c16 ∷ c17 ∷ c18 ∷ timezone ∷ more))
        ≡ true =
      ground arith in
    rw
      (
        split_line-Written
            (number ∷ zipcode ∷ c2 ∷ c3 ∷ c4 ∷ c5 ∷ city ∷ c7 ∷ c8 ∷ latitude ∷ county ∷ longitude
              ∷ c12 ∷ c13 ∷ c14 ∷ c15 ∷ c16 ∷ c17 ∷ c18 ∷ timezone ∷ more)
            line w,
        wide,
        n,
      )
      (ap (λ x. ok (some (e.0, x))) (sym v))

module _ (F : Folly GeoData) where
  unfoldable pub add_row : List Bytes → Table F → Result (Table F)
  add_row parts d = and_then (key_of parts) λ k. insert_row F k k (data_of k parts) d

  -- the body of the loop of `fromCSV`
  unfoldable pub read_line : Bytes → Table F → Result (Table F)
  read_line line d = with_columns (columns line) add_row d

  unfoldable pub get_geos : ℕ → Table F → List (ℕ × GeoData) → Run (List GeoData)
  get_geos prefetch d out = get_all F (λ pn. pn / 10000) (λ v. v) missing prefetch d out

  -- `old` is what the local variable holds before
  unfoldable pub get_geo : ℕ → Table F → GeoData → ℕ → Run GeoData
  get_geo prefetch d old pn =
      get_geos prefetch d ((pn, old) ∷ []) >>= λ out. done (get_or out 0 old)

  unfoldable pub build : Table F → Table F
  build d = Keyed.build F d

  -- Loading a file of complete lines into a new builder without an exception, whatever the batch
  -- size, and building it: each number of a batch is then answered with the place of the
  -- first row of its first digits, the number divided by 10000, or npanxx becomes 0 and the rest of
  -- the answer stays. Every line is such a row of at least twenty columns.
  pub get_geos-load :
      (k fuel prefetch : ℕ) (ls : List Bytes) (es : List (Option (ℕ × GeoData)))
      (l : Loaded (Table F))
      → Spelled Spells ls es
      → All IsLine ls
      → length ls + 1 < fuel
      → 0 < prefetch
      → load_rows read_line (suc k) fuel (at (text_of ls [])) 0 (new_table F) ≡ done l
      → l.thrown ≡ none
      → (out : List (ℕ × GeoData))
      → get_geos prefetch (build l.content) out
        ≡ done (
            map
              (λ (p : ℕ × GeoData).
                answer (λ v. v) (λ old. record old { npanxx = 0 }) (first_of (p.0 / 10000) es) p.1)
              out)
  unfolding add_row read_line get_geos build
  get_geos-load k fuel prefetch ls es l spelled lines enough pos run fine out =
      load_rows-first_of F columns key_of (λ k. k) data_of Spells entry-Spells (λ pn. pn / 10000)
        (λ v. v) (λ old. record old { npanxx = 0 }) k fuel prefetch ls es l spelled lines enough pos
        run fine out
