-- ===== src/Tests/Logs.antt =====
-- A request that is logged while the file changes.
use lnr_high_performance.AccessLog.Lines.{calls, last_status, total, lines, run-line}
use lnr_high_performance.AccessLog.{
  Log, Request, send_headers, send_body, other, request_complete, on_error, new_handler,
  format_request, format_response, on_request, Event, call, signal, run,
}
use lnr_high_performance.Base.{
  ℕ, ◌%◌, ◌^◌, ◌≡◌, refl, true, false, some, List, [], ◌∷◌, ◌++◌, Bytes,
}
use lnr_high_performance.Tests.Documents.{show}
use lnr_high_performance.Text.{codes}

abbrev asked : Request
asked = record {
  peer = codes "127.0.0.1:80";
  method = codes "GET";
  uri = codes "/target";
  start_time = 1600000000;
}

abbrev date : ℕ → Bytes
date t = codes "13/Sep/2020:12:26:40 +0000"

abbrev events : List Event
events =
    call (send_headers 200)
    ∷ call (send_body (codes "abc" ∷ codes "de" ∷ []))
    ∷ signal false true
    ∷ call (send_body (codes "f" ∷ []))
    ∷ call (other (codes "sendEOM"))
    ∷ []

abbrev opened : Log
opened = record { writer = some []; flushed = codes "one" ∷ [] }

run-line_example :
    let (h', w', passed) =
      run date show
        (events ++ call request_complete ∷ [])
        (on_request date show asked new_handler)
        opened in
    (lines w'
      ≡ lines opened
        ++ (format_request date show asked
            ++ format_response date show (last_status 0 events) (total events % 2 ^ 64))
          ∷ [])
    × (passed ≡ calls events)
    × (lines
          (run date show
            (events ++ call on_error ∷ [])
            (on_request date show asked new_handler)
            opened).1
        ≡ lines opened)
run-line_example = run-line date show asked events opened (tt, (tt, (tt, (tt, (tt, tt))))) refl
