-- ===== src/Control/Slots.antt =====
-- A command changes one slot, and only where it replies with success.
use lnr_high_performance.Base.{
  ℕ, ◌<◌, ◌+◌, length, All, List, [], ◌≡◌, ◌⊎◌, inl, inr, refl, sym, ap, ◌∙◌, Bool, Option, none,
  some, Option-cases, Bytes, Result, done, true, false, if◌then◌else◌,
}
use lnr_high_performance.Control.{
  Maps, Metas, Globals, Reply, success, failure, no_reply, is_runtime_error, settle, load_file,
  us_country, ca_country, Command, reload, dnc_reload, tollfree_reload, dno_reload, lerg_reload,
  youmail_reload, geo_reload, ftc_reload, f404_reload, f606_reload, dispatch,
}
use lnr_high_performance.Csv.Lines.{IsLine, text_of, at, outcome, run_lines}
use lnr_high_performance.Csv.Load.{load_rows-run_lines}
use lnr_high_performance.Csv.{Loaded}
use lnr_high_performance.Dnc
use lnr_high_performance.Dno
use lnr_high_performance.F404
use lnr_high_performance.F606
use lnr_high_performance.Ftc
use lnr_high_performance.Geo
use lnr_high_performance.Keyed
use lnr_high_performance.Lerg
use lnr_high_performance.PhoneMapping.Lines
use lnr_high_performance.PhoneMapping
use lnr_high_performance.TollFree
use lnr_high_performance.Youmail
use lnr_high_performance.Vendor.{FollyText}

-- the slots without that of a command
unfoldable pub others : {M : Maps} → Command → Globals M → Globals M
others (reload us_country) g = record g { us = none }
others (reload ca_country) g = record g { ca = none }
others dnc_reload g = record g { dnc = none }
others tollfree_reload g = record g { toll_free = none }
others (dno_reload kind) g = record g { dno = none }
others lerg_reload g = record g { lerg = none }
others youmail_reload g = record g { youmail = none }
others geo_reload g = record g { geo = none }
others ftc_reload g = record g { ftc = none }
others f404_reload g = record g { f404 = none }
others f606_reload g = record g { f606 = none }

-- a slot that holds what the lines of a file make of a new builder, built
abbrev pub Stored :
    {D : Type 0} → (Bytes → D → Result D) → D → (D → D) → List Bytes → Option D → Type 0
Stored {D = D} step new build ls slot =
    (d : D) × (n : ℕ) × (run_lines step ls 0 new ≡ (d, n, none)) × (slot ≡ some (build d))

module _ (T : FollyText) (M : Maps) (meta : Metas M) (garbage : ℕ) where
  -- the slot of a command holds the file
  unfoldable pub Loads : Command → List Bytes → Globals M → Type 0
  Loads (reload us_country) ls g =
      Stored (PhoneMapping.Lines.read_line T M.numbers)
        (PhoneMapping.set_metadata M.numbers meta.numbers (PhoneMapping.new_data M.numbers))
        (PhoneMapping.build M.numbers) ls g.us
  Loads (reload ca_country) ls g =
      Stored (PhoneMapping.Lines.read_line T M.numbers)
        (PhoneMapping.set_metadata M.numbers meta.numbers (PhoneMapping.new_data M.numbers))
        (PhoneMapping.build M.numbers) ls g.ca
  Loads dnc_reload ls g =
      Stored (Dnc.read_line M.numbers garbage)
        (Keyed.set_metadata M.numbers meta.numbers (Keyed.new_table M.numbers))
        (Dnc.build M.numbers) ls g.dnc
  Loads tollfree_reload ls g =
      Stored (TollFree.read_line M.numbers)
        (Keyed.set_metadata M.numbers meta.numbers (Keyed.new_table M.numbers))
        (TollFree.build M.numbers) ls g.toll_free
  Loads (dno_reload kind) ls g =
      Stored (Dno.read_line M.numbers kind)
        (Dno.set_metadata M.numbers meta.numbers (Dno.new_data M.numbers)) (λ d. d) ls g.dno
  Loads lerg_reload ls g =
      Stored (Lerg.read_line M.lergs) (Lerg.set_metadata M.lergs meta.lergs (Lerg.new_data M.lergs))
        (Lerg.build M.lergs) ls g.lerg
  Loads youmail_reload ls g =
      Stored (Youmail.read_line M.youmails)
        (Keyed.set_metadata M.youmails meta.youmails (Keyed.new_table M.youmails))
        (Youmail.build M.youmails) ls g.youmail
  Loads geo_reload ls g =
      Stored (Geo.read_line M.geos) (Keyed.set_metadata M.geos meta.geos (Keyed.new_table M.geos))
        (Geo.build M.geos) ls g.geo
  Loads ftc_reload ls g =
      Stored (Ftc.read_line M.ftcs) (Keyed.set_metadata M.ftcs meta.ftcs (Keyed.new_table M.ftcs))
        (Ftc.build M.ftcs) ls g.ftc
  Loads f404_reload ls g =
      Stored (F404.read_line M.f404s)
        (Keyed.set_metadata M.f404s meta.f404s (Keyed.new_table M.f404s)) (F404.build M.f404s) ls
        g.f404
  Loads f606_reload ls g =
      Stored (F606.read_line M.f606s)
        (Keyed.set_metadata M.f606s meta.f606s (Keyed.new_table M.f606s)) (F606.build M.f606s) ls
        g.f606

  -- the file is in the slot and success is reported, or nothing changes and it is not
  abbrev pub Settled : Command → List Bytes → Globals M → Globals M → Reply → Type 0
  Settled c ls g g' r =
      (others c g' ≡ others c g) × (((r ≡ success) × Loads c ls g') ⊎ ((g' ≡ g) × ¬ (r ≡ success)))

failed : (b : Bool) → ¬ ((if b then failure else no_reply) ≡ success)
failed true h = cc
failed false h = cc

module _ {M : Maps} {D : Type 0} (c : Command) (put : Option D → Globals M → Globals M)
    (slot : Globals M → Option D) (kept : (d : Option D) (g : Globals M) → slot (put d g) ≡ d)
    (apart : (d : Option D) (g : Globals M) → others c (put d g) ≡ others c g) where
  -- a command on its own slot
  abbrev Replaced :
      (Bytes → D → Result D) → D → (D → D) → List Bytes → Globals M → Globals M → Reply → Type 0
  Replaced step new build ls g g' r =
      (others c g' ≡ others c g)
      × (((r ≡ success) × Stored step new build ls (slot g')) ⊎ ((g' ≡ g) × ¬ (r ≡ success)))

  settle-Replaced :
      (step : Bytes → D → Result D) (new : D) (build : D → D) (ls : List Bytes) (g : Globals M)
      (l : Loaded D)
      → outcome step l ≡ run_lines step ls 0 new
      → Replaced step new build ls g (settle put build g l).0 (settle put build g l).1
  unfolding settle
  settle-Replaced step new build ls g l same = elim (Option-cases l.thrown) [
    | inl e ↦
        let taken : run_lines step ls 0 new ≡ (l.content, l.line, none) =
          sym same ∙ ap (λ o. (l.content, l.line, o)) e in
        rw e (
          apart (some (build l.content)) g,
          inl (refl, (l.content, l.line, taken, kept (some (build l.content)) g)),
        )
    | inr (x, e) ↦ rw e (refl, inr (refl, failed (is_runtime_error x)))
  ]

  load_file-Replaced :
      (step : Bytes → D → Result D) (new : D) (build : D → D) (fuel : ℕ) (ls : List Bytes)
      (g : Globals M)
      → All IsLine ls
      → length ls + 1 < fuel
      → (g' : Globals M) × (r : Reply) × (load_file put step new build fuel (at (text_of ls [])) g
          ≡ done (g', r))
        × Replaced step new build ls g g' r
  unfolding load_file
  load_file-Replaced step new build fuel ls g lines enough =
      let (l, run, same) = load_rows-run_lines step 9999 fuel ls 0 new lines enough in
      let (g', r) = settle put build g l in
      (g', r, rw run, settle-Replaced step new build ls g l same)

-- A load command on a file of complete lines ends. Every slot but its own is as it was. Its own
-- holds what the lines of the file make of a new builder, built, where the reply is success; with
-- any other reply nothing has changed.
pub dispatch-Settled :
    (T : FollyText) (M : Maps) (meta : Metas M) (garbage : ℕ) (c : Command) (fuel : ℕ)
    (ls : List Bytes) (g : Globals M)
    → All IsLine ls
    → length ls + 1 < fuel
    → (g' : Globals M) × (r : Reply) × (dispatch T M meta garbage c fuel (at (text_of ls [])) g
        ≡ done (g', r))
      × Settled T M meta garbage c ls g g' r
unfolding dispatch others Loads
dispatch-Settled T M meta garbage (reload us_country) =
    load_file-Replaced (reload us_country) (λ d g. record g { us = d }) (λ g. g.us) (λ d g. refl)
      (λ d g. refl) _ _ _
dispatch-Settled T M meta garbage (reload ca_country) =
    load_file-Replaced (reload ca_country) (λ d g. record g { ca = d }) (λ g. g.ca) (λ d g. refl)
      (λ d g. refl) _ _ _
dispatch-Settled T M meta garbage dnc_reload =
    load_file-Replaced dnc_reload (λ d g. record g { dnc = d }) (λ g. g.dnc) (λ d g. refl)
      (λ d g. refl) _ _ _
dispatch-Settled T M meta garbage tollfree_reload =
    load_file-Replaced tollfree_reload (λ d g. record g { toll_free = d }) (λ g. g.toll_free)
      (λ d g. refl) (λ d g. refl) _ _ _
dispatch-Settled T M meta garbage (dno_reload kind) =
    load_file-Replaced (dno_reload kind) (λ d g. record g { dno = d }) (λ g. g.dno) (λ d g. refl)
      (λ d g. refl) _ _ _
dispatch-Settled T M meta garbage lerg_reload =
    load_file-Replaced lerg_reload (λ d g. record g { lerg = d }) (λ g. g.lerg) (λ d g. refl)
      (λ d g. refl) _ _ _
dispatch-Settled T M meta garbage youmail_reload =
    load_file-Replaced youmail_reload (λ d g. record g { youmail = d }) (λ g. g.youmail)
      (λ d g. refl) (λ d g. refl) _ _ _
dispatch-Settled T M meta garbage geo_reload =
    load_file-Replaced geo_reload (λ d g. record g { geo = d }) (λ g. g.geo) (λ d g. refl)
      (λ d g. refl) _ _ _
dispatch-Settled T M meta garbage ftc_reload =
    load_file-Replaced ftc_reload (λ d g. record g { ftc = d }) (λ g. g.ftc) (λ d g. refl)
      (λ d g. refl) _ _ _
dispatch-Settled T M meta garbage f404_reload =
    load_file-Replaced f404_reload (λ d g. record g { f404 = d }) (λ g. g.f404) (λ d g. refl)
      (λ d g. refl) _ _ _
dispatch-Settled T M meta garbage f606_reload =
    load_file-Replaced f606_reload (λ d g. record g { f606 = d }) (λ g. g.f606) (λ d g. refl)
      (λ d g. refl) _ _ _
