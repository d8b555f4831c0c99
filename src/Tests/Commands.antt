-- ===== src/Tests/Commands.antt =====
-- A load of the US database.
use lnr_high_performance.Base.{ℕ, ◌≡◌, none, List, [], ◌∷◌, Bytes, done, arith}
use lnr_high_performance.Control.Slots.{Settled, dispatch-Settled}
use lnr_high_performance.Control.{Maps, Metas, Globals, Reply, reload, us_country, dispatch}
use lnr_high_performance.Csv.Lines.{text_of, at}
use lnr_high_performance.F404
use lnr_high_performance.F606
use lnr_high_performance.Ftc
use lnr_high_performance.Geo
use lnr_high_performance.Lerg
use lnr_high_performance.Tests.Concrete.{table, plain}
use lnr_high_performance.Text.{codes}
use lnr_high_performance.Youmail

abbrev pub maps : Maps
maps = record {
  numbers = table ℕ;
  lergs = table Lerg.LergData;
  youmails = table Youmail.YoumailData;
  geos = table Geo.GeoData;
  ftcs = table Ftc.FtcData;
  f404s = table F404.F404Data;
  f606s = table F606.F606Data;
}

abbrev pub metas : Metas maps
metas = record {
  numbers = tt;
  lergs = tt;
  youmails = tt;
  geos = tt;
  ftcs = tt;
  f404s = tt;
  f606s = tt;
}

abbrev pub globals : Globals maps
globals = record {
  us = none;
  ca = none;
  dnc = none;
  dno = none;
  toll_free = none;
  lerg = none;
  youmail = none;
  geo = none;
  ftc = none;
  f404 = none;
  f606 = none;
}

abbrev lines : List Bytes
lines = codes "2125550123,2125559999" ∷ codes "2125550124,2125559999" ∷ []

dispatch-Settled_example :
    (g : Globals maps) × (r : Reply) × (dispatch plain maps metas 0
        (reload us_country)
        9
        (at (text_of lines []))
        globals
      ≡ done (g, r))
    × Settled plain maps metas 0 (reload us_country) lines globals g r
dispatch-Settled_example =
    dispatch-Settled plain maps metas 0 (reload us_country) 9 lines globals (omega arith)
      (omega arith)
