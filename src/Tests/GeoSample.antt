-- ===== src/Tests/GeoSample.antt =====
-- Geo: a file of one line, loaded, built and asked.
use lnr_high_performance.Base.{
  Option, some, inl, ℕ, ◌/◌, ◌≡◌, refl, List, [], ◌∷◌, map, Bytes, done, arith, none,
}
use lnr_high_performance.Csv.Lines.{text_of, at, at_end}
use lnr_high_performance.Csv.{getline, from_csv, load_rows, Loaded}
use lnr_high_performance.Keyed.Answers.{answer}
use lnr_high_performance.Keyed.Spelled.{Spelled, first_of}
use lnr_high_performance.Keyed.{Table, new_table, insert_row}
use lnr_high_performance.PhoneMapping.{phone_list, max_rows}
use lnr_high_performance.Tests.Concrete.{table, all_bare-IsColumn}
use lnr_high_performance.Text.{
  codes, skip_spaces, take_sign, starts_digit, scan_digits, stoll, split_line, field, extract,
  delete_character,
}
use lnr_high_performance.Vendor.{Folly}
use lnr_high_performance.Geo.{
  Spells, GeoData, columns, key_of, data_of, add_row, read_line, get_geos, build, get_geos-load,
}

program : Unit {0}
unfolding getline from_csv load_rows new_table insert_row phone_list skip_spaces take_sign
    starts_digit scan_digits stoll split_line field extract delete_character columns key_of data_of
    add_row read_line
program = tt

abbrev F : Folly GeoData
F = table GeoData

abbrev lines : List Bytes
lines = codes "212555,10001,2,3,4,5,NY,7,8,40.7,NYC,-74,12,13,14,15,16,17,18,EST" ∷ []

abbrev content : Table F
content = record {
  meta = tt;
  dict =
      (
        212555,
        record {
          npanxx = 212555;
          zipcode = codes "10001";
          county = codes "NYC";
          city = codes "NY";
          latitude = codes "40.7";
          longitude = codes "-74";
          timezone = codes "EST";
        },
      )
      ∷ [];
  pn_column = phone_list 212555 max_rows ∷ [];
  index = phone_list 212555 max_rows ∷ [];
}

abbrev loaded : Loaded (Table F)
loaded = record { content = content; stream = at_end; line = 1; thrown = none }

load : load_rows (read_line F) 10000 9 (at (text_of lines [])) 0 (new_table F) ≡ done loaded
unfolding program
load = refl

abbrev asked : List (ℕ × GeoData)
asked =
    (
      2125550123,
      record {
        npanxx = 7;
        zipcode = [];
        county = [];
        city = [];
        latitude = [];
        longitude = [];
        timezone = [];
      },
    )
    ∷ (
      42,
      record {
        npanxx = 7;
        zipcode = [];
        county = [];
        city = [];
        latitude = [];
        longitude = [];
        timezone = [];
      },
    )
    ∷ []

abbrev texts : List Bytes
texts =
    codes "212555"
    ∷ codes "10001"
    ∷ codes "2"
    ∷ codes "3"
    ∷ codes "4"
    ∷ codes "5"
    ∷ codes "NY"
    ∷ codes "7"
    ∷ codes "8"
    ∷ codes "40.7"
    ∷ codes "NYC"
    ∷ codes "-74"
    ∷ codes "12"
    ∷ codes "13"
    ∷ codes "14"
    ∷ codes "15"
    ∷ codes "16"
    ∷ codes "17"
    ∷ codes "18"
    ∷ codes "EST"
    ∷ []

abbrev rows : List (Option (ℕ × GeoData))
rows =
    some (
      212555,
      record {
        npanxx = 212555;
        zipcode = codes "10001";
        county = codes "NYC";
        city = codes "NY";
        latitude = codes "40.7";
        longitude = codes "-74";
        timezone = codes "EST";
      },
    )
    ∷ []

spelled : Spelled Spells lines rows
unfolding program
spelled = (
  (
    codes "212555",
    codes "10001",
    codes "2",
    codes "3",
    codes "4",
    codes "5",
    codes "NY",
    codes "7",
    codes "8",
    codes "40.7",
    codes "NYC",
    codes "-74",
    codes "12",
    codes "13",
    codes "14",
    codes "15",
    codes "16",
    codes "17",
    codes "18",
    codes "EST",
    [],
    (all_bare-IsColumn texts refl, inl (refl, refl)),
    refl,
    refl,
  ),
  tt,
)

get_geos-load_example :
    get_geos F 16 (build F content) asked
    ≡ done (
        map
          (λ (p : ℕ × GeoData).
            answer (λ v. v) (λ old. record old { npanxx = 0 }) (first_of (p.0 / 10000) rows) p.1)
          asked)
get_geos-load_example =
    get_geos-load F 9999 9 16 lines rows loaded spelled (omega arith) (omega arith) (omega arith)
      load refl asked
