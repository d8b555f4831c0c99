-- ===== src/Control/Server.antt =====
-- `ControlThread::dispatch` of callfwd/Control.cpp: a message of the control socket, with every
-- command. What a descriptor stands for is a parameter: `open` gives the stream that reading it
-- starts with, or nothing where it cannot be opened.
use lnr_high_performance.Acl.{Acls, Origin, Reader, from_csv}
use lnr_high_performance.Base.{
  ℕ, Bool, true, false, Option, none, some, List, Bytes, if◌then◌else◌, get_elem?, Result, ok, err,
  Run, done, ◌>>=◌,
}
use lnr_high_performance.Control.Dump.{dump_mapping_file}
use lnr_high_performance.Control.Verify.{verify_mapping_file}
use lnr_high_performance.Control.{
  Maps, Metas, Globals, Reply, success, failure, no_reply, Country, us_country, ca_country, Command,
  reload, dnc_reload, tollfree_reload, lerg_reload, youmail_reload, geo_reload, ftc_reload,
  f404_reload, f606_reload, dno_reload, dispatch,
}
use lnr_high_performance.Csv.{Stream}
use lnr_high_performance.Dno.{dno, dno_npa, dno_npa_nxx, dno_npa_nxx_x}
use lnr_high_performance.PhoneMapping
use lnr_high_performance.Text.{codes, same_text}
use lnr_high_performance.Vendor.{FollyText}

pub data Request : Type 0 where
  load : Command → Request
  verify dump : Country → Request
  acl meta unrecognized : Request

-- `country == "CA"`
unfoldable pub country_of : Bytes → Country
country_of s = if same_text s (codes "CA") then ca_country else us_country

-- the chain of tests on `cmd`
unfoldable pub request_of : Bytes → Country → Request
request_of cmd c =
    if same_text cmd (codes "reload")
    then load (reload c)
    else if same_text cmd (codes "dnc_reload")
    then load dnc_reload
    else if same_text cmd (codes "tollfree_reload")
    then load tollfree_reload
    else if same_text cmd (codes "dno_npa_reload")
    then load (dno_reload dno_npa)
    else if same_text cmd (codes "dno_reload")
    then load (dno_reload dno)
    else if same_text cmd (codes "dno_npa_nxx_reload")
    then load (dno_reload dno_npa_nxx)
    else if same_text cmd (codes "dno_npa_nxx_x_reload")
    then load (dno_reload dno_npa_nxx_x)
    else if same_text cmd (codes "lerg_reload")
    then load lerg_reload
    else if same_text cmd (codes "youmail_reload")
    then load youmail_reload
    else if same_text cmd (codes "geo_reload")
    then load geo_reload
    else if same_text cmd (codes "ftc_reload")
    then load ftc_reload
    else if same_text cmd (codes "404_reload")
    then load f404_reload
    else if same_text cmd (codes "606_reload")
    then load f606_reload
    else if same_text cmd (codes "verify")
    then verify c
    else if same_text cmd (codes "dump")
    then dump c
    else if same_text cmd (codes "acl")
    then acl
    else if same_text cmd (codes "meta")
    then meta
    else unrecognized

-- A message with its descriptors. `none` is a command that is missing, a country that is left out
-- and a descriptor's index that is negative or left out.
pub record Message : Type 0 where
  pub cmd : Option Bytes
  pub country : Option Bytes
  pub stdin : Option ℕ
  pub stdout : Option ℕ
  pub stderr : Option ℕ
  pub argfd : List ℕ

-- `mapfd`: `argfd.at(index)` throws, a negative index stands for itself
unfoldable pub map_fd : List ℕ → Option ℕ → Option (Option ℕ)
map_fd argfd none = some none
map_fd argfd (some i) = elim (get_elem? argfd i) [ none ↦ none | some fd ↦ some (some fd) ]

-- all global variables
pub record World (M : Maps) (A : Acls) : Type 0 where
  pub globals : Globals M
  pub acl : Option (Origin A)

-- what becomes of a command: the world, the status byte, and what was written to a file
abbrev pub After : Maps → Acls → Type 0
After M A = World M A × Reply × Option Bytes

abbrev pub reply_of : Bool → Reply
reply_of true = success
reply_of false = failure

module _ (T : FollyText) (M : Maps) (metas : Metas M) (garbage : ℕ) (A : Acls) (start : Reader A)
    (show : ℕ → Bytes) (prefetch fuel : ℕ) (open_file : Option ℕ → Option Stream) where
  -- `canada ? getCA() : getUS()`
  unfoldable pub slot : Country → World M A → Option (PhoneMapping.Data M.numbers)
  slot us_country w = w.globals.us
  slot ca_country w = w.globals.ca

  -- `loadACLFile`: every exception is caught
  unfoldable pub load_acl_file : Stream → World M A → Run (World M A × Reply)
  load_acl_file s w = from_csv A T fuel s 0 start >>= λ (r : Result (Origin A) × ℕ). elim r.0 [
    | err e ↦ done (w, failure)
    | ok rules ↦ done (record w { acl = some rules }, success)
  ]

  -- the branches of `dispatch`; a file that cannot be opened is a failure
  unfoldable pub run_request : Request → Option ℕ → Option ℕ → World M A → Run (After M A)
  run_request (load c) stdin stdout w = elim (open_file stdin) [
    | none ↦ done (w, failure, none)
    | some s ↦ dispatch T M metas garbage c fuel s w.globals >>= λ (r : Globals M × Reply).
        done (record w { globals = r.0 }, r.1, none)
  ]
  run_request (verify c) stdin stdout w = elim (open_file stdin) [
    | none ↦ done (w, failure, none)
    | some s ↦ verify_mapping_file T M.numbers prefetch fuel (slot c w) s >>= λ (b : Bool).
        done (w, reply_of b, none)
  ]
  run_request (dump c) stdin stdout w = elim (open_file stdout) [
    | none ↦ done (w, failure, none)
    | some s ↦ dump_mapping_file M.numbers prefetch show fuel (slot c w) >>= λ (text : Bytes).
        done (w, success, some text)
  ]
  run_request acl stdin stdout w = elim (open_file stdin) [
    | none ↦ done (w, failure, none)
    | some s ↦ load_acl_file s w >>= λ (r : World M A × Reply). done (r.0, r.1, none)
  ]
  run_request meta stdin stdout w = done (w, success, none)
  run_request unrecognized stdin stdout w = done (w, failure, none)

  -- `getDefault("country", "US")`
  unfoldable pub message_country : Message → Country
  message_country m = elim m.country [ none ↦ us_country | some s ↦ country_of s ]

  -- `dispatch`: a bad argument is caught before anything is done, and not replied to
  unfoldable pub on_message : Message → World M A → Run (After M A)
  on_message m w = elim m.cmd [
    | none ↦ done (w, no_reply, none)
    | some cmd ↦ elim (map_fd m.argfd m.stdin) [
      | none ↦ done (w, no_reply, none)
      | some stdin ↦ elim (map_fd m.argfd m.stdout) [
        | none ↦ done (w, no_reply, none)
        | some stdout ↦ elim (map_fd m.argfd m.stderr) [
          | none ↦ done (w, no_reply, none)
          | some stderr ↦ run_request (request_of cmd (message_country m)) stdin stdout w
        ]
      ]
    ]
  ]
