-- ===== src/Target/Record.antt =====
-- The text that `onQueryComplete` of callfwd/ApiHandler.cpp makes of one number. `show` is the
-- decimal text that `folly::format` gives a number.
use lnr_high_performance.Base.{
  ℕ, Bool, true, false, not, Option, none, some, List, [], ◌∷◌, ◌++◌, ◌==◌, if◌then◌else◌, Bytes,
}
use lnr_high_performance.F404.{F404Data}
use lnr_high_performance.F606.{F606Data}
use lnr_high_performance.Ftc.{FtcData}
use lnr_high_performance.Geo.{GeoData}
use lnr_high_performance.Lerg.{LergData}
use lnr_high_performance.PhoneMapping.{none_number}
use lnr_high_performance.Text.{codes}
use lnr_high_performance.Youmail.{YoumailData}
use Prim.Native.String.{String}

-- What was found for one number; `none` where the database is not loaded.
pub record Facts : Type 0 where
  pub pn : ℕ
  pub us_rn : ℕ
  pub ca_rn : ℕ
  pub dno : Option ℕ
  pub dnc : Option ℕ
  pub toll_free : Option ℕ
  pub lerg : Option LergData
  pub youmail : Option YoumailData
  pub geo : Option GeoData
  pub ftc : Option FtcData
  pub f404 : Option F404Data
  pub f606 : Option F606Data

-- the test `!available || key == 0`, and the value where it fails
abbrev pub listed : Option ℕ → Bool
listed none = false
listed (some n) = not (n == 0)

abbrev pub known : {A : Type 0} → (A → ℕ) → Option A → Option A
known key none = none
known key (some a) = if key a == 0 then none else some a

-- `"name": "{}"` and `name={}`
unfoldable pub pair : Bool → String → Bytes → Bytes
pair json name value =
    if json
    then codes "\"" ++ (codes name ++ (codes "\": \"" ++ (value ++ codes "\"")))
    else codes name ++ (codes "=" ++ value)

unfoldable pub commas : List Bytes → Bytes
commas [] = []
commas (s ∷ []) = s
commas (s ∷ t ∷ ss) = s ++ (codes ", " ++ commas (t ∷ ss))

unfoldable pub lrn_text : (ℕ → Bytes) → Bool → ℕ → ℕ → Bytes
lrn_text show true pn rn =
    if rn == none_number
    then pair true "pn" (show pn) ++ codes ", \"rn\": null"
    else commas (pair true "pn" (show pn) ∷ pair true "rn" (show rn) ∷ [])
lrn_text show false pn rn =
    if rn == none_number
    then pair false "pn" (show pn) ++ codes ",lrn=null"
    else pair false "pn" (show pn) ++ (codes "," ++ pair false "lrn" (show rn))

-- the three databases that only list numbers
unfoldable pub yes_no : Bool → String → Option ℕ → Bytes
yes_no json name found = pair json name (if listed found then codes "yes" else codes "no")

unfoldable pub lerg_text : Bool → Option LergData → Bytes
lerg_text json found = elim (known (λ (d : LergData). d.lerg_key) found) [
  | none ↦
      if json
      then codes "\"ocn\":: null, \"operator\": null, \"ocn_type\": null, \"lata\": null, "
        ++ codes "\"rate_center\": null, \"country\": null"
      else codes
          "ocn=null, operator=null, ocn_type=null, lata=null, rate_center=null, country=null "
  | some d ↦ commas (
      pair json "ocn" d.ocn
      ∷ pair json "operator" d.company
      ∷ pair json "ocn_type" d.ocn_type
      ∷ pair json "lata" d.lata
      ∷ pair json "rate_center" d.rate_center
      ∷ pair json "country" d.country
      ∷ [])
]

unfoldable pub youmail_text : Bool → Option YoumailData → Bytes
youmail_text json found = elim (known (λ (d : YoumailData). d.pn) found) [
  | none ↦
      if json
      then codes "\"youmail_SpamScore\": null, \"youmail_FraudProbability\": null, "
        ++ codes "\"youmail_Unlawful\": null, \" youmail_TCPAFraudProbability\": null"
      else codes "youmail_SpamScore=null, youmail_FraudProbability=null, "
        ++ codes "youmail_Unlawful=null, youmail_TCPAFraudProbability=null"
  | some d ↦ commas (
      pair json "youmail_SpamScore" d.sapmscore
      ∷ pair json "youmail_FraudProbability" d.fraudprobability
      ∷ pair json "youmail_Unlawful" d.unlawful
      ∷ pair json "youmail_TCPAFraudProbability" d.tcpafraud
      ∷ [])
]

unfoldable pub geo_text : Bool → Option GeoData → Bytes
geo_text json found = elim (known (λ (d : GeoData). d.npanxx) found) [
  | none ↦
      if json
      then codes "\"zipcode\": null, \"county\": null, \"city\": null, \" latitude\": null, "
        ++ codes "\" longitude\": null, \" timezone\": null"
      else codes
          "zipcode=null, county=null, city=null, latitude=null, longitude=null, timezone=null"
  | some d ↦ commas (
      pair json "zipcode" d.zipcode
      ∷ pair json "county" d.county
      ∷ pair json "city" d.city
      ∷ pair json "latitude" d.latitude
      ∷ pair json "longitude" d.longitude
      ∷ pair json "timezone" d.timezone
      ∷ [])
]

unfoldable pub ftc_text : Bool → Option FtcData → Bytes
ftc_text json found = elim (known (λ (d : FtcData). d.pn) found) [
  | none ↦
      if json
      then codes "\"is_ftc\": \"no\", \"last_ftc_on\": null, \"first_ftc_on\": null, "
        ++ codes "\"ftc_count\": null"
      else codes "is_ftc=no, last_ftc_on=null, first_ftc_on=null, ftc_count=null"
  | some d ↦ commas (
      pair json "is_ftc" (codes "yes")
      ∷ pair json "last_ftc_on" d.last_ftc_on
      ∷ pair json "first_ftc_on" d.first_ftc_on
      ∷ pair json (if json then " ftc_count" else "ftc_count") d.ftc_count
      ∷ [])
]

unfoldable pub f404_text : Bool → Option F404Data → Bytes
f404_text json found = elim (known (λ (d : F404Data). d.pn) found) [
  | none ↦
      if json
      then codes "\"first_404_on\": null, \"last_404_on\": null"
      else codes "first_404_on=null, last_404_on=null"
  | some d ↦
      commas
        (pair json "first_404_on" d.first_f404_on ∷ pair json "last_404_on" d.last_f404_on ∷ [])
]

unfoldable pub f606_text : Bool → Option F606Data → Bytes
f606_text json found = elim (known (λ (d : F606Data). d.pn) found) [
  | none ↦
      if json
      then codes "\"first_6xx_on\": null, \"last_6xx_on\": null"
      else codes "first_6xx_on=null, last_6xx_on=null"
  | some d ↦
      commas
        (pair json "first_6xx_on" d.first_f606_on ∷ pair json "last_6xx_on" d.last_f606_on ∷ [])
]

-- the round of the loop for one number
unfoldable pub record_text : (ℕ → Bytes) → Bool → Facts → Bytes
record_text show json f =
    let rn = if f.us_rn == none_number then f.ca_rn else f.us_rn in
    codes "  {"
    ++ (commas (
          lrn_text show json f.pn rn
          ∷ yes_no json "is_dno" f.dno
          ∷ yes_no json "is_dnc" f.dnc
          ∷ yes_no json "is_tollfree" f.toll_free
          ∷ lerg_text json f.lerg
          ∷ youmail_text json f.youmail
          ∷ geo_text json f.geo
          ∷ ftc_text json f.ftc
          ∷ f404_text json f.f404
          ∷ f606_text json f.f606
          ∷ [])
        ++ codes "},\n")
