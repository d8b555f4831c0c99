-- ===== src/Control.antt =====
-- The global slots of callfwd/Control.cpp and the commands that load them. A command's file is the
-- stream it is read from; the reply is the status byte, if one is sent.
pub mod RoundTrip
pub mod Server
pub mod Serving
pub mod Reachable
pub mod Slots
pub mod Dump
pub mod Verify
use lnr_high_performance.Base.{
  ℕ, Bool, true, false, ◌&&◌, Option, none, some, if◌then◌else◌, is_some, Bytes, Error,
  invalid_argument, out_of_range, out_of_bounds, Result, Run, done, ◌>>=◌,
}
use lnr_high_performance.Csv.{Stream, Loaded, load_rows}
use lnr_high_performance.Dnc
use lnr_high_performance.Dno
use lnr_high_performance.F404
use lnr_high_performance.F606
use lnr_high_performance.Ftc
use lnr_high_performance.Geo
use lnr_high_performance.Keyed
use lnr_high_performance.Keyed.{Table}
use lnr_high_performance.Lerg
use lnr_high_performance.PhoneMapping
use lnr_high_performance.PhoneMapping.Lines
use lnr_high_performance.TollFree
use lnr_high_performance.Vendor.{Folly, FollyText}
use lnr_high_performance.Youmail

-- the hash map at the value types of the databases
pub record Maps : Type 1 where
  pub numbers : Folly ℕ
  pub lergs : Folly Lerg.LergData
  pub youmails : Folly Youmail.YoumailData
  pub geos : Folly Geo.GeoData
  pub ftcs : Folly Ftc.FtcData
  pub f404s : Folly F404.F404Data
  pub f606s : Folly F606.F606Data

-- the rest of the message, as each database's `dynamic`
pub record Metas (M : Maps) : Type 0 where
  pub numbers : M.numbers.Dynamic
  pub lergs : M.lergs.Dynamic
  pub youmails : M.youmails.Dynamic
  pub geos : M.geos.Dynamic
  pub ftcs : M.ftcs.Dynamic
  pub f404s : M.f404s.Dynamic
  pub f606s : M.f606s.Dynamic

-- the global variables
pub record Globals (M : Maps) : Type 0 where
  pub us : Option (PhoneMapping.Data M.numbers)
  pub ca : Option (PhoneMapping.Data M.numbers)
  pub dnc : Option (Table M.numbers)
  pub dno : Option (Dno.Data M.numbers)
  pub toll_free : Option (Table M.numbers)
  pub lerg : Option (Lerg.Data M.lergs)
  pub youmail : Option (Table M.youmails)
  pub geo : Option (Table M.geos)
  pub ftc : Option (Table M.ftcs)
  pub f404 : Option (Table M.f404s)
  pub f606 : Option (Table M.f606s)

pub data Reply : Type 0 where
  success failure no_reply : Reply

-- `std::runtime_error` is caught; what `std::stoll` throws is not
unfoldable pub is_runtime_error : Error → Bool
is_runtime_error invalid_argument = false
is_runtime_error out_of_range = false
is_runtime_error out_of_bounds = false
is_runtime_error _ = true

-- `PhoneMapping::isAvailable`
unfoldable pub is_available : {M : Maps} → Globals M → Bool
is_available g = is_some g.us && is_some g.ca

module _ {M : Maps} {D : Type 0} where
  -- behind the loop of a loader: `commit` puts the built data in the slot
  unfoldable pub settle :
      (Option D → Globals M → Globals M) → (D → D) → Globals M → Loaded D → Globals M × Reply
  settle put build g l = elim l.thrown [
    | none ↦ (put (some (build l.content)) g, success)
    | some e ↦ (g, if is_runtime_error e then failure else no_reply)
  ]

  -- a loader: the file is read into a new builder
  unfoldable pub load_file :
      (Option D → Globals M → Globals M)
      → (Bytes → D → Result D)
      → D
      → (D → D)
      → ℕ
      → Stream
      → Globals M
      → Run (Globals M × Reply)
  load_file put step new build fuel s g =
      load_rows step 10000 fuel s 0 new >>= λ (l : Loaded D). done (settle put build g l)

pub data Country : Type 0 where
  us_country ca_country : Country

-- the commands that load a mapping
pub data Command : Type 0 where
  reload : Country → Command
  dnc_reload tollfree_reload lerg_reload youmail_reload geo_reload ftc_reload f404_reload : Command
  f606_reload : Command
  dno_reload : Dno.DnoType → Command

module _ (T : FollyText) (M : Maps) (meta : Metas M) (garbage : ℕ) where
  -- the branches of `dispatch`
  unfoldable pub dispatch : Command → ℕ → Stream → Globals M → Run (Globals M × Reply)
  dispatch (reload us_country) =
      load_file (λ d g. record g { us = d }) (PhoneMapping.Lines.read_line T M.numbers)
        (PhoneMapping.set_metadata M.numbers meta.numbers (PhoneMapping.new_data M.numbers))
        (PhoneMapping.build M.numbers)
  dispatch (reload ca_country) =
      load_file (λ d g. record g { ca = d }) (PhoneMapping.Lines.read_line T M.numbers)
        (PhoneMapping.set_metadata M.numbers meta.numbers (PhoneMapping.new_data M.numbers))
        (PhoneMapping.build M.numbers)
  dispatch dnc_reload =
      load_file (λ d g. record g { dnc = d }) (Dnc.read_line M.numbers garbage)
        (Keyed.set_metadata M.numbers meta.numbers (Keyed.new_table M.numbers))
        (Dnc.build M.numbers)
  dispatch tollfree_reload =
      load_file (λ d g. record g { toll_free = d }) (TollFree.read_line M.numbers)
        (Keyed.set_metadata M.numbers meta.numbers (Keyed.new_table M.numbers))
        (TollFree.build M.numbers)
  dispatch (dno_reload kind) =
      load_file (λ d g. record g { dno = d }) (Dno.read_line M.numbers kind)
        (Dno.set_metadata M.numbers meta.numbers (Dno.new_data M.numbers)) (λ d. d)
  dispatch lerg_reload =
      load_file (λ d g. record g { lerg = d }) (Lerg.read_line M.lergs)
        (Lerg.set_metadata M.lergs meta.lergs (Lerg.new_data M.lergs)) (Lerg.build M.lergs)
  dispatch youmail_reload =
      load_file (λ d g. record g { youmail = d }) (Youmail.read_line M.youmails)
        (Keyed.set_metadata M.youmails meta.youmails (Keyed.new_table M.youmails))
        (Youmail.build M.youmails)
  dispatch geo_reload =
      load_file (λ d g. record g { geo = d }) (Geo.read_line M.geos)
        (Keyed.set_metadata M.geos meta.geos (Keyed.new_table M.geos)) (Geo.build M.geos)
  dispatch ftc_reload =
      load_file (λ d g. record g { ftc = d }) (Ftc.read_line M.ftcs)
        (Keyed.set_metadata M.ftcs meta.ftcs (Keyed.new_table M.ftcs)) (Ftc.build M.ftcs)
  dispatch f404_reload =
      load_file (λ d g. record g { f404 = d }) (F404.read_line M.f404s)
        (Keyed.set_metadata M.f404s meta.f404s (Keyed.new_table M.f404s)) (F404.build M.f404s)
  dispatch f606_reload =
      load_file (λ d g. record g { f606 = d }) (F606.read_line M.f606s)
        (Keyed.set_metadata M.f606s meta.f606s (Keyed.new_table M.f606s)) (F606.build M.f606s)
