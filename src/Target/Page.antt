-- ===== src/Target/Page.antt =====
-- `onQueryComplete` of callfwd/ApiHandler.cpp: the lookups in all databases, and the answer.
use lnr_high_performance.Base.{
  ℕ, zero, suc, ◌+◌, Bool, Option, none, some, List, [], ◌++◌, map, if◌then◌else◌, get_elem?,
  length, Bytes, Run, done, fault, ◌>>=◌,
}
use lnr_high_performance.Control.{Maps, Globals}
use lnr_high_performance.Dnc
use lnr_high_performance.Dno
use lnr_high_performance.F404
use lnr_high_performance.F404.{F404Data}
use lnr_high_performance.F606
use lnr_high_performance.F606.{F606Data}
use lnr_high_performance.Ftc
use lnr_high_performance.Ftc.{FtcData}
use lnr_high_performance.Geo
use lnr_high_performance.Geo.{GeoData}
use lnr_high_performance.Lerg
use lnr_high_performance.Lerg.{LergData}
use lnr_high_performance.PhoneMapping
use lnr_high_performance.Reverse.{Event, events_of}
use lnr_high_performance.Target.Lookup.{no_lerg, routing_numbers, search_keys}
use lnr_high_performance.Target.Record.{Facts, record_text}
use lnr_high_performance.Text.{codes}
use lnr_high_performance.TollFree
use lnr_high_performance.Youmail
use lnr_high_performance.Youmail.{YoumailData}

-- the flags `*_f14map_prefetch`, one for each database
pub data Source : Type 0 where
  phone dnc dno toll_free lerg youmail geo ftc f404 f606 : Source

-- the arrays of the handler; `none` for a database that is not loaded
pub record Columns : Type 0 where
  pub us_rn : List ℕ
  pub ca_rn : List ℕ
  pub us_dnc : Option (List ℕ)
  pub us_dno : Option (List ℕ)
  pub us_tollfree : Option (List ℕ)
  pub us_lerg : Option (List LergData)
  pub us_youmail : Option (List YoumailData)
  pub us_geo : Option (List GeoData)
  pub us_ftc : Option (List FtcData)
  pub us_f404 : Option (List F404Data)
  pub us_f606 : Option (List F606Data)

-- the elements that `resize` adds
abbrev pub no_youmail : YoumailData
no_youmail = record { pn = 0; sapmscore = []; fraudprobability = []; unlawful = []; tcpafraud = [] }

abbrev pub no_geo : GeoData
no_geo = record {
  npanxx = 0;
  zipcode = [];
  county = [];
  city = [];
  latitude = [];
  longitude = [];
  timezone = [];
}

abbrev pub no_ftc : FtcData
no_ftc = record { pn = 0; first_ftc_on = []; last_ftc_on = []; ftc_count = [] }

abbrev pub no_f404 : F404Data
no_f404 = record { pn = 0; first_f404_on = []; last_f404_on = [] }

abbrev pub no_f606 : F606Data
no_f606 = record { pn = 0; first_f606_on = []; last_f606_on = [] }

module _ {D A : Type 0} where
  -- `if (available) { v.resize(N); db.getXs(N, keys, v.data()); }`
  unfoldable pub fetch :
      (D → List (ℕ × A) → Run (List A)) → A → List ℕ → Option D → Run (Option (List A))
  fetch get blank keys none = done none
  fetch get blank keys (some d) =
      get d (map (λ k. (k, blank)) keys) >>= λ (xs : List A). done (some xs)

-- `v[i]`, read only where the database is available
unfoldable pub element : {A : Type 0} → Option (List A) → ℕ → Run (Option A)
element none i = done none
element (some xs) i = elim (get_elem? xs i) [ none ↦ fault | some a ↦ done (some a) ]

unfoldable pub at : List ℕ → ℕ → Run ℕ
at xs i = elim (get_elem? xs i) [ none ↦ fault | some n ↦ done n ]

module _ (M : Maps) (prefetch : Source → ℕ) where
  unfoldable pub look_up_all :
      Globals M → PhoneMapping.Data M.numbers → PhoneMapping.Data M.numbers → List ℕ → Run Columns
  look_up_all g us ca pn =
      PhoneMapping.get_rns M.numbers (prefetch phone) us pn >>= λ (us_rn : List ℕ).
      PhoneMapping.get_rns M.numbers (prefetch phone) ca pn >>= λ (ca_rn : List ℕ).
      fetch (Dnc.get_dncs M.numbers (prefetch dnc)) 0 pn g.dnc >>= λ (us_dnc : Option (List ℕ)).
      fetch (Dno.get_dnos M.numbers (prefetch dno)) 0 pn g.dno >>= λ (us_dno : Option (List ℕ)).
      fetch (TollFree.get_toll_frees M.numbers (prefetch toll_free)) 0 pn g.toll_free
      >>= λ (us_tollfree : Option (List ℕ)).
          fetch (Lerg.get_lergs M.lergs (prefetch lerg)) no_lerg
            (search_keys (routing_numbers us_rn ca_rn) pn) g.lerg
          >>= λ (us_lerg : Option (List LergData)).
              fetch (Youmail.get_youmails M.youmails (prefetch youmail)) no_youmail pn g.youmail
              >>= λ (us_youmail : Option (List YoumailData)).
                  fetch (Geo.get_geos M.geos (prefetch geo)) no_geo pn g.geo
                  >>= λ (us_geo : Option (List GeoData)).
                      fetch (Ftc.get_ftcs M.ftcs (prefetch ftc)) no_ftc pn g.ftc
                      >>= λ (us_ftc : Option (List FtcData)).
                          fetch (F404.get_f404s M.f404s (prefetch f404)) no_f404 pn g.f404
                          >>= λ (us_f404 : Option (List F404Data)).
                              fetch (F606.get_f606s M.f606s (prefetch f606)) no_f606 pn g.f606
                              >>= λ (us_f606 : Option (List F606Data)). done (record {
                                us_rn = us_rn;
                                ca_rn = ca_rn;
                                us_dnc = us_dnc;
                                us_dno = us_dno;
                                us_tollfree = us_tollfree;
                                us_lerg = us_lerg;
                                us_youmail = us_youmail;
                                us_geo = us_geo;
                                us_ftc = us_ftc;
                                us_f404 = us_f404;
                                us_f606 = us_f606;
                              })

-- what the arrays hold at one index
unfoldable pub facts_at : List ℕ → Columns → ℕ → Run Facts
facts_at pns c i = at pns i >>= λ (pn : ℕ). at c.us_rn i >>= λ (us_rn : ℕ).
    at c.ca_rn i >>= λ (ca_rn : ℕ). element c.us_dnc i >>= λ (dnc : Option ℕ).
    element c.us_dno i >>= λ (dno : Option ℕ). element c.us_tollfree i >>= λ (toll_free : Option ℕ).
    element c.us_lerg i >>= λ (lerg : Option LergData).
    element c.us_youmail i >>= λ (youmail : Option YoumailData).
    element c.us_geo i >>= λ (geo : Option GeoData).
    element c.us_ftc i >>= λ (ftc : Option FtcData).
    element c.us_f404 i >>= λ (f404 : Option F404Data).
    element c.us_f606 i >>= λ (f606 : Option F606Data). done (record {
      pn = pn;
      us_rn = us_rn;
      ca_rn = ca_rn;
      dnc = dnc;
      dno = dno;
      toll_free = toll_free;
      lerg = lerg;
      youmail = youmail;
      geo = geo;
      ftc = ftc;
      f404 = f404;
      f606 = f606;
    })

module _ (show : ℕ → Bytes) (json : Bool) where
  -- `for (i = 0; i < N; ++i)`: the first argument counts the rounds left
  unfoldable pub record_texts : ℕ → ℕ → List ℕ → Columns → Run Bytes
  record_texts zero i pns c = done []
  record_texts (suc n) i pns c =
      let rest = record_texts n (i + 1) pns c in
      facts_at pns c i >>= λ (f : Facts).
      rest >>= λ (text : Bytes). done (record_text show json f ++ text)

module _ (M : Maps) (prefetch : Source → ℕ) (show : ℕ → Bytes) where
  -- the answer to the numbers of a query; the two routing databases are dereferenced unchecked
  unfoldable pub on_query_complete : Globals M → Bool → List ℕ → Run (List Event)
  on_query_complete g json pns = elim g.us [
    | none ↦ fault
    | some us ↦ elim g.ca [
      | none ↦ fault
      | some ca ↦ look_up_all M prefetch g us ca pns >>= λ (c : Columns).
          record_texts show json (length pns) 0 pns c >>= λ (text : Bytes). done (
            events_of json []
              ((if json then codes "[\n" else []) ++ (text ++ (if json then codes "]\n" else []))))
    ]
  ]
