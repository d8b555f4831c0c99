-- ===== src/Control/Serving.antt =====
-- What every message of the control socket keeps: the routing databases are built from rows, and a
-- database that is loaded stays loaded.
use lnr_high_performance.Base.{
  bind_done, done_inj, arith, ℕ, ◌≡◌, ◌⊎◌, inl, inr, refl, sym, ap, subst, true, Option, none, some,
  List, [], Bytes, Result, ok, err, done, is_some, is_some, Option-cases,
}
use lnr_high_performance.Control.{
  Maps, Metas, Globals, Reply, settle, load_file, us_country, ca_country, Command, reload,
  dnc_reload, tollfree_reload, lerg_reload, youmail_reload, geo_reload, ftc_reload, f404_reload,
  f606_reload, dno_reload, dispatch,
}
use lnr_high_performance.Csv.Invariant.{load_rows-keeps}
use lnr_high_performance.Csv.{Stream, Loaded, load_rows}
use lnr_high_performance.PhoneMapping.Builder.{Holds, Refines, new_data-Holds}
use lnr_high_performance.PhoneMapping.Files.{take_line, read_line-Refines}
use lnr_high_performance.PhoneMapping.Lines
use lnr_high_performance.PhoneMapping.Rows.{Row}
use lnr_high_performance.PhoneMapping
use lnr_high_performance.PhoneMapping.{Data, new_data, set_metadata, build}
use lnr_high_performance.Vendor.{Folly, FollyText}

-- the data holds rows
abbrev pub HoldsSome : (F : Folly ℕ) → Data F → Type 0
HoldsSome F d = (rows : List Row) × Holds F rows d

-- a slot that is empty, or has data that was built from rows
abbrev pub Built : (F : Folly ℕ) → Option (Data F) → Type 0
Built F none = Unit
Built F (some d) = (rows : List Row) × (d' : Data F) × Holds F rows d' × (d ≡ build F d')

abbrev pub Serves : {M : Maps} → Globals M → Type 0
Serves {M} g = Built M.numbers g.us × Built M.numbers g.ca

-- every slot of `g` that is loaded is loaded in `g'`
abbrev pub Stays : {D : Type 0} → Option D → Option D → Type 0
Stays o o' = is_some o ≡ true → is_some o' ≡ true

pub record Keeps {M : Maps} (g g' : Globals M) : Type 0 where
  pub serves : Serves g → Serves g'
  pub us : Stays g.us g'.us
  pub ca : Stays g.ca g'.ca
  pub dnc : Stays g.dnc g'.dnc
  pub dno : Stays g.dno g'.dno
  pub toll_free : Stays g.toll_free g'.toll_free
  pub lerg : Stays g.lerg g'.lerg
  pub youmail : Stays g.youmail g'.youmail
  pub geo : Stays g.geo g'.geo
  pub ftc : Stays g.ftc g'.ftc
  pub f404 : Stays g.f404 g'.f404
  pub f606 : Stays g.f606 g'.f606

pub Keeps-refl : {M : Maps} (g : Globals M) → Keeps g g
Keeps-refl g = record {
  serves = λ s. s;
  us = λ e. e;
  ca = λ e. e;
  dnc = λ e. e;
  dno = λ e. e;
  toll_free = λ e. e;
  lerg = λ e. e;
  youmail = λ e. e;
  geo = λ e. e;
  ftc = λ e. e;
  f404 = λ e. e;
  f606 = λ e. e;
}

pub Keeps-trans : {M : Maps} (g h k : Globals M) → Keeps g h → Keeps h k → Keeps g k
Keeps-trans g h k a b = record {
  serves = λ s. b.serves (a.serves s);
  us = λ e. b.us (a.us e);
  ca = λ e. b.ca (a.ca e);
  dnc = λ e. b.dnc (a.dnc e);
  dno = λ e. b.dno (a.dno e);
  toll_free = λ e. b.toll_free (a.toll_free e);
  lerg = λ e. b.lerg (a.lerg e);
  youmail = λ e. b.youmail (a.youmail e);
  geo = λ e. b.geo (a.geo e);
  ftc = λ e. b.ftc (a.ftc e);
  f404 = λ e. b.f404 (a.f404 e);
  f606 = λ e. b.f606 (a.f606 e);
}

module _ (T : FollyText) (F : Folly ℕ) where
  accepted :
      (line : Bytes) (d d' : Data F)
      → PhoneMapping.Lines.read_line T F line d ≡ ok d'
      → HoldsSome F d
      → HoldsSome F d'
  accepted line d d' e (rows, h) =
      go (take_line T line rows)
        (subst (Refines F (take_line T line rows)) e (read_line-Refines T F line h))
    where
      go : (r : Result (List Row)) → Refines F r (ok d') → HoldsSome F d'
      go (ok rows') h' = (rows', h')
      go (err x) h' = absurd h'

  new-HoldsSome : (m : F.Dynamic) → HoldsSome F (set_metadata F m (new_data F))
  unfolding set_metadata new_data
  new-HoldsSome m =
      let h = new_data-Holds F in
      (
        [],
        record {
          column = h.column;
          index = h.index;
          reads = h.reads;
          keyed = h.keyed;
          few = h.few;
        },
      )

module _ {M : Maps} {D : Type 0} (put : Option D → Globals M → Globals M)
    (step : Bytes → D → Result D) (P : D → Type 0)
    (keeps : (line : Bytes) (d d' : D) → step line d ≡ ok d' → P d → P d') (build : D → D) where
  settled :
      (g g' : Globals M) (r : Reply) (l : Loaded D)
      → settle put build g l ≡ (g', r)
      → P l.content
      → (g' ≡ g) ⊎ ((d : D) × P d × (g' ≡ put (some (build d)) g))
  unfolding settle
  settled g g' r l e p = elim (Option-cases l.thrown) [
    | inl t ↦ inr (l.content, p, sym (ap (λ x. x.0) (rw (settle, t) at e)))
    | inr (x, t) ↦ inl (sym (ap (λ x. x.0) (rw (settle, t) at e)))
  ]

  -- A loader leaves all as it was, or puts built data in its slot.
  loaded :
      (new : D) (fuel : ℕ) (s : Stream) (g g' : Globals M) (r : Reply)
      → P new
      → load_file put step new build fuel s g ≡ done (g', r)
      → (g' ≡ g) ⊎ ((d : D) × P d × (g' ≡ put (some (build d)) g))
  unfolding load_file
  loaded new fuel s g g' r p run =
      let (l, a, b) = bind_done (load_rows step 10000 fuel s 0 new) _ _ run in
      settled g g' r l (done_inj b) (load_rows-keeps step P keeps 10000 fuel s 0 new a p)

  -- so it keeps what both of these keep
  load_file-Keeps :
      (new : D) (fuel : ℕ) (s : Stream) (g g' : Globals M) (r : Reply)
      → P new
      → ((d : D) → P d → Keeps g (put (some (build d)) g))
      → load_file put step new build fuel s g ≡ done (g', r)
      → Keeps g g'
  load_file-Keeps new fuel s g g' r p filled run = elim (loaded new fuel s g g' r p run) [
    | inl e ↦ subst (Keeps g) (sym e) (Keeps-refl g)
    | inr (d, q, e) ↦ subst (Keeps g) (sym e) (filled d q)
  ]

module _ {M : Maps} {D : Type 0} (put : Option D → Globals M → Globals M)
    (step : Bytes → D → Result D) (new : D) (build : D → D) where
  -- a loader of another database
  other-Keeps :
      (fuel : ℕ) (s : Stream) (g g' : Globals M) (r : Reply)
      → ((d : D) → Keeps g (put (some d) g))
      → load_file put step new build fuel s g ≡ done (g', r)
      → Keeps g g'
  other-Keeps fuel s g g' r filled run =
      load_file-Keeps put step (λ d. Unit {0}) (λ line d d' e u. tt) build new fuel s g g' r tt
        (λ d u. filled (build d)) run

module _ (T : FollyText) {M : Maps} (metas : Metas M) (garbage : ℕ) where
  pub dispatch-Keeps :
      (c : Command) (fuel : ℕ) (s : Stream) (g g' : Globals M) (r : Reply)
      → dispatch T M metas garbage c fuel s g ≡ done (g', r)
      → Keeps g g'
  unfolding dispatch
  dispatch-Keeps (reload us_country) fuel s g g' r run =
      load_file-Keeps _ (PhoneMapping.Lines.read_line T M.numbers) (HoldsSome M.numbers)
        (accepted T M.numbers) (build M.numbers) _ fuel s g g' r
        (new-HoldsSome T M.numbers metas.numbers)
        (λ d (rows, h).
          let b : Built M.numbers (some (build M.numbers d)) = (rows, d, h, refl) in ground arith)
        run
  dispatch-Keeps (reload ca_country) fuel s g g' r run =
      load_file-Keeps _ (PhoneMapping.Lines.read_line T M.numbers) (HoldsSome M.numbers)
        (accepted T M.numbers) (build M.numbers) _ fuel s g g' r
        (new-HoldsSome T M.numbers metas.numbers)
        (λ d (rows, h).
          let b : Built M.numbers (some (build M.numbers d)) = (rows, d, h, refl) in ground arith)
        run
  dispatch-Keeps dnc_reload fuel s g g' r run =
      other-Keeps _ _ _ _ fuel s g g' r (λ d. ground arith) run
  dispatch-Keeps tollfree_reload fuel s g g' r run =
      other-Keeps _ _ _ _ fuel s g g' r (λ d. ground arith) run
  dispatch-Keeps (dno_reload k) fuel s g g' r run =
      other-Keeps _ _ _ _ fuel s g g' r (λ d. ground arith) run
  dispatch-Keeps lerg_reload fuel s g g' r run =
      other-Keeps _ _ _ _ fuel s g g' r (λ d. ground arith) run
  dispatch-Keeps youmail_reload fuel s g g' r run =
      other-Keeps _ _ _ _ fuel s g g' r (λ d. ground arith) run
  dispatch-Keeps geo_reload fuel s g g' r run =
      other-Keeps _ _ _ _ fuel s g g' r (λ d. ground arith) run
  dispatch-Keeps ftc_reload fuel s g g' r run =
      other-Keeps _ _ _ _ fuel s g g' r (λ d. ground arith) run
  dispatch-Keeps f404_reload fuel s g g' r run =
      other-Keeps _ _ _ _ fuel s g g' r (λ d. ground arith) run
  dispatch-Keeps f606_reload fuel s g g' r run =
      other-Keeps _ _ _ _ fuel s g g' r (λ d. ground arith) run
