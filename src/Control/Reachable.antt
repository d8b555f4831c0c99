-- ===== src/Control/Reachable.antt =====
-- The worlds that messages of the control socket lead to.
use lnr_high_performance.Acl.{Acls, Origin, Reader, from_csv}
use lnr_high_performance.Base.{
  bind_done, done_inj, ℕ, ◌≡◌, inl, inr, refl, sym, ap, ◌∙◌, subst, Option, none, some, Bytes,
  Result, ok, err, Run, done, Option-cases,
}
use lnr_high_performance.Control.Dump.{dump_mapping_file}
use lnr_high_performance.Control.Server.{
  Request, load, verify, dump, acl, meta, unrecognized, Message, World, After, load_acl_file,
  run_request, on_message, map_fd, request_of, message_country, reply_of,
}
use lnr_high_performance.Control.Serving.{Keeps, Keeps-refl, Keeps-trans, dispatch-Keeps}
use lnr_high_performance.Control.Verify.{verify_mapping_file}
use lnr_high_performance.Control.{
  Maps, Metas, Reply, success, failure, no_reply, Country, Command, dispatch,
}
use lnr_high_performance.Csv.{Stream}
use lnr_high_performance.Vendor.{FollyText}

module _ (T : FollyText) (M : Maps) (metas : Metas M) (garbage : ℕ) (A : Acls) (start : Reader A)
    (show : ℕ → Bytes) (prefetch fuel : ℕ) (open_file : Option ℕ → Option Stream) where
  abbrev KeptBy : Request → Type 0
  KeptBy q =
      (stdin stdout : Option ℕ) (w w' : World M A) (r : Reply) (out : Option Bytes)
      → run_request T M metas garbage A start show prefetch fuel open_file q stdin stdout w
        ≡ done (w', r, out)
      → Keeps w.globals w'.globals

  same_world :
      (w : World M A) {w' : World M A} {r : Reply} {o : Option Bytes} {e : After M A}
      → done e ≡ done (w', r, o)
      → e.0.globals ≡ w.globals
      → Keeps w.globals w'.globals
  same_world w {e = e} run same =
      subst (Keeps w.globals) (sym same ∙ ap (λ (x : After M A). x.0.globals) (done_inj run))
        (Keeps-refl w.globals)

  load-KeptBy : (c : Command) → KeptBy (load c)
  unfolding run_request
  load-KeptBy c stdin stdout w w' r out run = elim (Option-cases (open_file stdin)) [
    | inl e ↦ same_world w {e = (w, failure, none)} (rw (run_request, e) at run) refl
    | inr (s, e) ↦
        let (x, a, b) =
          bind_done (dispatch T M metas garbage c fuel s w.globals) _ _
            (rw (run_request, e) at run) in
        subst (Keeps w.globals) (ap (λ (x : After M A). x.0.globals) (done_inj b))
          (dispatch-Keeps T metas garbage c fuel s w.globals x.0 x.1 a)
  ]

  verify-KeptBy : (c : Country) → KeptBy (verify c)
  unfolding run_request
  verify-KeptBy c stdin stdout w w' r out run = elim (Option-cases (open_file stdin)) [
    | inl e ↦ same_world w {e = (w, failure, none)} (rw (run_request, e) at run) refl
    | inr (s, e) ↦
        let (x, a, b) =
          bind_done (verify_mapping_file T M.numbers prefetch fuel _ s) _ _
            (rw (run_request, e) at run) in
        same_world w {e = (w, reply_of x, none)} b refl
  ]

  dump-KeptBy : (c : Country) → KeptBy (dump c)
  unfolding run_request
  dump-KeptBy c stdin stdout w w' r out run = elim (Option-cases (open_file stdout)) [
    | inl e ↦ same_world w {e = (w, failure, none)} (rw (run_request, e) at run) refl
    | inr (s, e) ↦
        let (x, a, b) =
          bind_done (dump_mapping_file M.numbers prefetch show fuel _) _ _
            (rw (run_request, e) at run) in
        same_world w {e = (w, success, some x)} b refl
  ]

  -- only the ACL is replaced
  load_acl_file-globals :
      (s : Stream) (w : World M A) (x : World M A × Reply)
      → load_acl_file T M metas garbage A start show prefetch fuel open_file s w ≡ done x
      → x.0.globals ≡ w.globals
  unfolding load_acl_file
  load_acl_file-globals s w x run =
      let (y, a, b) = bind_done (from_csv A T fuel s 0 start) _ _ run in go y.0 b
    where
      go :
          (y : Result (Origin A))
          → (elim y as (λ y. Run (World M A × Reply)) [
            | err e ↦ done (w, failure)
            | ok rules ↦ done (record w { acl = some rules }, success)
          ])
            ≡ done x
          → x.0.globals ≡ w.globals
      go (ok rules) e = sym (ap (λ (x : World M A × Reply). x.0.globals) (done_inj e))
      go (err z) e = sym (ap (λ (x : World M A × Reply). x.0.globals) (done_inj e))

  acl-KeptBy : KeptBy acl
  unfolding run_request
  acl-KeptBy stdin stdout w w' r out run = elim (Option-cases (open_file stdin)) [
    | inl e ↦ same_world w {e = (w, failure, none)} (rw (run_request, e) at run) refl
    | inr (s, e) ↦
        let (x, a, b) =
          bind_done (load_acl_file T M metas garbage A start show prefetch fuel open_file s w) _ _
            (rw (run_request, e) at run) in
        same_world w {e = (x.0, x.1, none)} b (load_acl_file-globals s w x a)
  ]

  run_request-KeptBy : (q : Request) → KeptBy q
  unfolding run_request
  run_request-KeptBy (load c) = load-KeptBy c
  run_request-KeptBy (verify c) = verify-KeptBy c
  run_request-KeptBy (dump c) = dump-KeptBy c
  run_request-KeptBy acl = acl-KeptBy
  run_request-KeptBy meta =
      λ stdin stdout w w' r out run. same_world w {e = (w, success, none)} run refl
  run_request-KeptBy unrecognized =
      λ stdin stdout w w' r out run. same_world w {e = (w, failure, none)} run refl

  -- One message keeps what every world is to keep.
  pub on_message-Keeps :
      (m : Message) (w w' : World M A) (r : Reply) (out : Option Bytes)
      → on_message T M metas garbage A start show prefetch fuel open_file m w ≡ done (w', r, out)
      → Keeps w.globals w'.globals
  unfolding on_message
  on_message-Keeps m w w' r out run = elim (Option-cases m.cmd) [
    | inl e ↦ same_world w {e = (w, no_reply, none)} (rw (on_message, e) at run) refl
    | inr (cmd, e) ↦ elim (Option-cases (map_fd m.argfd m.stdin)) [
      | inl f ↦ same_world w {e = (w, no_reply, none)} (rw (on_message, e, f) at run) refl
      | inr (stdin, f) ↦ elim (Option-cases (map_fd m.argfd m.stdout)) [
        | inl h ↦ same_world w {e = (w, no_reply, none)} (rw (on_message, e, f, h) at run) refl
        | inr (stdout, h) ↦ elim (Option-cases (map_fd m.argfd m.stderr)) [
          | inl k ↦ same_world w {e = (w, no_reply, none)} (rw (on_message, e, f, h, k) at run) refl
          | inr (stderr, k) ↦
              run_request-KeptBy
                (request_of cmd
                  (message_country T M metas garbage A start show prefetch fuel open_file m))
                stdin stdout w w' r out (rw (on_message, e, f, h, k) at run)
        ]
      ]
    ]
  ]

module _ (T : FollyText) (M : Maps) (A : Acls) (start : Reader A) (show : ℕ → Bytes)
    (prefetch fuel : ℕ) where
  -- What messages lead to, one after another. Each has the rest of its JSON as meta data, finds
  -- files of its own, and whatever a local variable holds before it is read.
  pub data Reach (w : World M A) : World M A → Type 0 where
    here : Reach w w
    next :
        {v v' : World M A} (metas : Metas M) (garbage : ℕ) (open_file : Option ℕ → Option Stream)
        (m : Message) (r : Reply) (out : Option Bytes)
        → Reach w v
        → on_message T M metas garbage A start show prefetch fuel open_file m v ≡ done (v', r, out)
        → Reach w v'

  -- Whatever messages come in whatever order, with whatever files: a database that is loaded stays
  -- loaded, and if the two routing databases are empty or built from rows, they are so ever after.
  pub Reach-Keeps : {w w' : World M A} → Reach w w' → Keeps w.globals w'.globals
  Reach-Keeps {w = w} here = Keeps-refl w.globals
  Reach-Keeps {w = w} {w' = w'} (next {v} metas garbage open_file m r out path step) =
      Keeps-trans w.globals v.globals w'.globals (Reach-Keeps path)
        (on_message-Keeps T M metas garbage A start show prefetch fuel open_file m v w' r out step)
