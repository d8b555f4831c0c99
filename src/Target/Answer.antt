-- ===== src/Target/Answer.antt =====
-- The answer to a query, record by record.
use lnr_high_performance.Base.{
  ℕ, suc, ◌+◌, ◌/◌, ◌<◌, ◌≡◌, refl, ap, ◌∙◌, Bool, some, List, [], ◌∷◌, ◌++◌, map, if◌then◌else◌,
  get_elem?, length, Bytes, done, arith,
}
use lnr_high_performance.Control.{Maps, Globals}
use lnr_high_performance.Dnc
use lnr_high_performance.Dno
use lnr_high_performance.Dno.Answers.{answer as dno_answer, get_dnos-answer}
use lnr_high_performance.F404
use lnr_high_performance.F404.{F404Data}
use lnr_high_performance.F606
use lnr_high_performance.F606.{F606Data}
use lnr_high_performance.Ftc
use lnr_high_performance.Ftc.{FtcData}
use lnr_high_performance.Geo
use lnr_high_performance.Geo.{GeoData}
use lnr_high_performance.Keyed.Answers.{answer}
use lnr_high_performance.Keyed.{Table}
use lnr_high_performance.Lerg
use lnr_high_performance.Lerg.{LergData}
use lnr_high_performance.Lerg.Answers.{answer as lerg_answer, get_lergs-answer}
use lnr_high_performance.PhoneMapping.Answers.{get_rns-route}
use lnr_high_performance.PhoneMapping.Builder.{Holds}
use lnr_high_performance.PhoneMapping.Rows.{Row, route}
use lnr_high_performance.PhoneMapping.{Data, build}
use lnr_high_performance.Reverse.Body.{concat}
use lnr_high_performance.Reverse.{events_of}
use lnr_high_performance.Target.Lookup.{
  no_lerg, routing_numbers, search_keys, search_key, routing_numbers-map, search_keys-map,
}
use lnr_high_performance.Target.Page.{
  Source, phone, dnc, dno, toll_free, lerg, youmail, geo, ftc, f404, f606, Columns, no_youmail,
  no_geo, no_ftc, no_f404, no_f606, fetch, look_up_all, facts_at, record_texts, on_query_complete,
}
use lnr_high_performance.Target.Record.{Facts, record_text}
use lnr_high_performance.Text.{codes}
use lnr_high_performance.TollFree
use lnr_high_performance.Youmail
use lnr_high_performance.Youmail.{YoumailData}
use native.Mathlib.Nat.{add-zero}
use lnr_high_performance.Target.Columns.{
  each, fetch-each, at-map, at_self, element-each, each-map, fetch-keyed,
}

module _ (M : Maps) where
  abbrev pub says_listed : Table M.numbers → ℕ → ℕ
  says_listed d pn = answer (λ v. 1) (λ old. 0) (M.numbers.find pn d.dict) 0

  abbrev pub says_dno : Dno.Data M.numbers → ℕ → ℕ
  says_dno d pn = dno_answer M.numbers d (pn, 0)

  abbrev pub says_lerg : (ℕ → ℕ) → Lerg.Data M.lergs → ℕ → LergData
  says_lerg key d pn = lerg_answer M.lergs d (key pn, no_lerg)

  abbrev pub says_youmail : Table M.youmails → ℕ → YoumailData
  says_youmail d pn = answer (λ v. v) Youmail.missing (M.youmails.find pn d.dict) no_youmail

  abbrev pub says_geo : Table M.geos → ℕ → GeoData
  says_geo d pn = answer (λ v. v) Geo.missing (M.geos.find (pn / 10000) d.dict) no_geo

  abbrev pub says_ftc : Table M.ftcs → ℕ → FtcData
  says_ftc d pn = answer (λ v. v) Ftc.missing (M.ftcs.find pn d.dict) no_ftc

  abbrev pub says_f404 : Table M.f404s → ℕ → F404Data
  says_f404 d pn = answer (λ v. v) F404.missing (M.f404s.find pn d.dict) no_f404

  abbrev pub says_f606 : Table M.f606s → ℕ → F606Data
  says_f606 d pn = answer (λ v. v) F606.missing (M.f606s.find pn d.dict) no_f606

module _ (M : Maps) (g : Globals M) (us ca : List Row) where
  abbrev key : ℕ → ℕ
  key pn = search_key us ca pn

  -- The routing numbers of the number's rows, and what each database that is loaded says of it; the
  -- carriers are asked for its routing number where it has one.
  abbrev pub facts_of : ℕ → Facts
  facts_of pn = record {
    pn = pn;
    us_rn = route us pn;
    ca_rn = route ca pn;
    dno = each g.dno (λ d. says_dno M d pn);
    dnc = each g.dnc (λ d. says_listed M d pn);
    toll_free = each g.toll_free (λ d. says_listed M d pn);
    lerg = each g.lerg (λ d. says_lerg M key d pn);
    youmail = each g.youmail (λ d. says_youmail M d pn);
    geo = each g.geo (λ d. says_geo M d pn);
    ftc = each g.ftc (λ d. says_ftc M d pn);
    f404 = each g.f404 (λ d. says_f404 M d pn);
    f606 = each g.f606 (λ d. says_f606 M d pn);
  }

  -- the arrays that hold these facts for every number
  abbrev columns_of : List ℕ → Columns
  columns_of pns = record {
    us_rn = map (route us) pns;
    ca_rn = map (route ca) pns;
    us_dnc = each g.dnc (λ d. map (says_listed M d) pns);
    us_dno = each g.dno (λ d. map (says_dno M d) pns);
    us_tollfree = each g.toll_free (λ d. map (says_listed M d) pns);
    us_lerg = each g.lerg (λ d. map (says_lerg M key d) pns);
    us_youmail = each g.youmail (λ d. map (says_youmail M d) pns);
    us_geo = each g.geo (λ d. map (says_geo M d) pns);
    us_ftc = each g.ftc (λ d. map (says_ftc M d) pns);
    us_f404 = each g.f404 (λ d. map (says_f404 M d) pns);
    us_f606 = each g.f606 (λ d. map (says_f606 M d) pns);
  }

  facts_at-facts_of :
      (pns : List ℕ) (i : ℕ) {pn : ℕ}
      → get_elem? pns i ≡ some pn
      → facts_at pns (columns_of pns) i ≡ done (facts_of pn)
  unfolding facts_at
  facts_at-facts_of pns i h = rw (
    at_self pns i h,
    at-map (route us) pns i h,
    at-map (route ca) pns i h,
    element-each g.dnc (says_listed M) pns i h,
    element-each g.dno (says_dno M) pns i h,
    element-each g.toll_free (says_listed M) pns i h,
    element-each g.lerg (says_lerg M key) pns i h,
    element-each g.youmail (says_youmail M) pns i h,
    element-each g.geo (says_geo M) pns i h,
    element-each g.ftc (says_ftc M) pns i h,
    element-each g.f404 (says_f404 M) pns i h,
    element-each g.f606 (says_f606 M) pns i h,
  )

  module _ (show : ℕ → Bytes) (json : Bool) where
    record_texts-concat :
        (pns rest : List ℕ) (i : ℕ)
        → ((j : ℕ) → get_elem? pns (i + j) ≡ get_elem? rest j)
        → record_texts show json (length rest) i pns (columns_of pns)
          ≡ done (concat (map (λ pn. record_text show json (facts_of pn)) rest))
    unfolding record_texts concat
    record_texts-concat pns [] i h = refl
    record_texts-concat pns (pn ∷ rest) i h =
        let here : get_elem? pns i ≡ some pn = rw add-zero at (h 0) in
        let later : (j : ℕ) → get_elem? pns ((i + 1) + j) ≡ get_elem? rest j =
          λ j. ap (get_elem? pns) (omega arith) ∙ h (suc j) in
        rw (facts_at-facts_of pns i here, record_texts-concat pns rest (i + 1) later)

  module _ (prefetch : Source → ℕ) (pos : (s : Source) → 0 < prefetch s)
      {us_data ca_data : Data M.numbers} (u : Holds M.numbers us us_data)
      (c : Holds M.numbers ca ca_data) where
    dncs_of :
        (pns : List ℕ)
        → fetch (Dnc.get_dncs M.numbers (prefetch dnc)) 0 pns g.dnc
          ≡ done (each g.dnc (λ d. map (says_listed M d) pns))
    unfolding Dnc.get_dncs
    dncs_of pns =
        fetch-keyed M.numbers (λ pn. pn) (λ v. 1) (λ old. 0) (prefetch dnc) 0 pns g.dnc (pos dnc)

    toll_frees_of :
        (pns : List ℕ)
        → fetch (TollFree.get_toll_frees M.numbers (prefetch toll_free)) 0 pns g.toll_free
          ≡ done (each g.toll_free (λ d. map (says_listed M d) pns))
    unfolding TollFree.get_toll_frees
    toll_frees_of pns =
        fetch-keyed M.numbers (λ pn. pn) (λ v. 1) (λ old. 0) (prefetch toll_free) 0 pns g.toll_free
          (pos toll_free)

    youmails_of :
        (pns : List ℕ)
        → fetch (Youmail.get_youmails M.youmails (prefetch youmail)) no_youmail pns g.youmail
          ≡ done (each g.youmail (λ d. map (says_youmail M d) pns))
    unfolding Youmail.get_youmails
    youmails_of pns =
        fetch-keyed M.youmails (λ pn. pn) (λ v. v) Youmail.missing (prefetch youmail) no_youmail pns
          g.youmail (pos youmail)

    geos_of :
        (pns : List ℕ)
        → fetch (Geo.get_geos M.geos (prefetch geo)) no_geo pns g.geo
          ≡ done (each g.geo (λ d. map (says_geo M d) pns))
    unfolding Geo.get_geos
    geos_of pns =
        fetch-keyed M.geos (λ pn. pn / 10000) (λ v. v) Geo.missing (prefetch geo) no_geo pns g.geo
          (pos geo)

    ftcs_of :
        (pns : List ℕ)
        → fetch (Ftc.get_ftcs M.ftcs (prefetch ftc)) no_ftc pns g.ftc
          ≡ done (each g.ftc (λ d. map (says_ftc M d) pns))
    unfolding Ftc.get_ftcs
    ftcs_of pns =
        fetch-keyed M.ftcs (λ pn. pn) (λ v. v) Ftc.missing (prefetch ftc) no_ftc pns g.ftc (pos ftc)

    f404s_of :
        (pns : List ℕ)
        → fetch (F404.get_f404s M.f404s (prefetch f404)) no_f404 pns g.f404
          ≡ done (each g.f404 (λ d. map (says_f404 M d) pns))
    unfolding F404.get_f404s
    f404s_of pns =
        fetch-keyed M.f404s (λ pn. pn) (λ v. v) F404.missing (prefetch f404) no_f404 pns g.f404
          (pos f404)

    f606s_of :
        (pns : List ℕ)
        → fetch (F606.get_f606s M.f606s (prefetch f606)) no_f606 pns g.f606
          ≡ done (each g.f606 (λ d. map (says_f606 M d) pns))
    unfolding F606.get_f606s
    f606s_of pns =
        fetch-keyed M.f606s (λ pn. pn) (λ v. v) F606.missing (prefetch f606) no_f606 pns g.f606
          (pos f606)

    dnos_of :
        (pns : List ℕ)
        → fetch (Dno.get_dnos M.numbers (prefetch dno)) 0 pns g.dno
          ≡ done (each g.dno (λ d. map (says_dno M d) pns))
    dnos_of pns =
        fetch-each (Dno.get_dnos M.numbers (prefetch dno)) (dno_answer M.numbers) 0 pns g.dno
          (λ d out. get_dnos-answer M.numbers (prefetch dno) d out (pos dno))

    lergs_of :
        (pns : List ℕ)
        → fetch
            (Lerg.get_lergs M.lergs (prefetch lerg))
            no_lerg
            (search_keys (routing_numbers (map (route us) pns) (map (route ca) pns)) pns)
            g.lerg
          ≡ done (each g.lerg (λ d. map (says_lerg M key d) pns))
    lergs_of pns =
        rw
          (
            routing_numbers-map us ca pns,
            search_keys-map us ca pns,
            fetch-each (Lerg.get_lergs M.lergs (prefetch lerg)) (lerg_answer M.lergs) no_lerg
                (map key pns) g.lerg
                (λ d out. get_lergs-answer M.lergs (prefetch lerg) d out (pos lerg)),
          )
          (ap done (each-map g.lerg (λ d k. lerg_answer M.lergs d (k, no_lerg)) key pns))

    look_up_all-columns_of :
        (pns : List ℕ)
        → look_up_all M prefetch g (build M.numbers us_data) (build M.numbers ca_data) pns
          ≡ done (columns_of pns)
    unfolding look_up_all
    look_up_all-columns_of pns = rw (
      get_rns-route M.numbers (prefetch phone) (pos phone) u pns,
      get_rns-route M.numbers (prefetch phone) (pos phone) c pns,
      dncs_of pns,
      dnos_of pns,
      toll_frees_of pns,
      lergs_of pns,
      youmails_of pns,
      geos_of pns,
      ftcs_of pns,
      f404s_of pns,
      f606s_of pns,
    )

    -- Where the routing databases hold these rows, the answer to the numbers of a query is one
    -- status line and, between the brackets of a JSON answer, the record of each number in turn,
    -- made of what every loaded database says of that number alone; no read leaves an array.
    pub on_query_complete-records :
        (show : ℕ → Bytes) (json : Bool) (pns : List ℕ)
        → g.us ≡ some (build M.numbers us_data)
        → g.ca ≡ some (build M.numbers ca_data)
        → on_query_complete M prefetch show g json pns
          ≡ done (
              events_of json [] (
                (if json then codes "[\n" else [])
                ++ (concat (map (λ pn. record_text show json (facts_of pn)) pns)
                    ++ (if json then codes "]\n" else []))))
    unfolding on_query_complete look_up_all events_of
    on_query_complete-records show json pns e f = rw (
      e,
      f,
      look_up_all-columns_of pns,
      record_texts-concat show json pns pns 0 (λ j. ap (get_elem? pns) (omega arith)),
    )
