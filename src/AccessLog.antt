-- ===== src/AccessLog.antt =====
-- callfwd/AccessLog.cpp: the line that is written for each request, the filter in front of a
-- handler, and the files it goes to. The text of an address, the text that `put_time` makes of a
-- time, the decimal text of a number and whether a file can be opened are parameters.
use lnr_high_performance.Base.{
  ℕ, ◌+◌, ◌%◌, ◌^◌, Bool, true, false, Option, none, some, List, [], ◌∷◌, ◌++◌, length,
  if◌then◌else◌, is_some, Bytes,
}
use lnr_high_performance.Text.{codes}
pub mod Lines

-- The writer that `accessLog` points to, with what was given to it, and what went to the writers
-- before it, which are flushed.
pub record Log : Type 0 where
  pub writer : Option (List Bytes)
  pub flushed : List Bytes

unfoldable pub write_message : Bytes → Log → Log
write_message m w = elim w.writer [ none ↦ w | some ms ↦ record w { writer = some (ms ++ m ∷ []) } ]

-- what the writer has, flushed
unfoldable pub retire : Option (List Bytes) → List Bytes → List Bytes
retire none flushed = flushed
retire (some ms) flushed = flushed ++ ms

-- `signalReceived`: no name of a file, or a file that is not opened, leaves the log
unfoldable pub signal_received : Bool → Bool → Log → Log
signal_received no_name opened w =
    if no_name
    then w
    else if opened
    then record { writer = some []; flushed = retire w.writer w.flushed }
    else w

-- `~AccessLogRotator`
unfoldable pub close : Log → Log
close w = record { writer = none; flushed = retire w.writer w.flushed }

-- what a request tells `onRequest`
pub record Request : Type 0 where
  pub peer : Bytes
  pub method : Bytes
  pub uri : Bytes
  pub start_time : ℕ

-- the calls that a handler behind the filter makes, and those that reach it: a status is a
-- `uint16_t`, a body is a chain
pub data Call : Type 0 where
  send_headers : ℕ → Call
  send_body : List Bytes → Call
  other : Bytes → Call
  request_complete on_error : Call

-- `AccessLogHandler`
pub record Handler : Type 0 where
  pub message : Bytes
  pub status : ℕ
  pub bytes : ℕ

unfoldable pub new_handler : Handler
new_handler = record { message = []; status = 0; bytes = 0 }

-- `computeChainDataLength`
unfoldable pub chain_length : List Bytes → ℕ
chain_length [] = 0
chain_length (b ∷ bs) = length b + chain_length bs

module _ (date : ℕ → Bytes) (show : ℕ → Bytes) where
  unfoldable pub format_request : Request → Bytes
  format_request req =
      req.peer
      ++ (codes " - - ["
          ++ (date req.start_time
              ++ (codes "] \"" ++ (req.method ++ (codes " " ++ (req.uri ++ codes "\" "))))))

  unfoldable pub format_response : ℕ → ℕ → Bytes
  format_response status bytes = show status ++ (codes " " ++ (show bytes ++ codes "\n"))

  -- `AccessLogFormatter::onRequest`: `clear()` resets the state of the stream, not its text
  unfoldable pub start_line : Request → Bytes → Bytes
  start_line req message = message ++ format_request req

  -- `AccessLogFormatter::onResponse`: the `str()` of C++17 copies the text, which stays in the stream
  unfoldable pub end_line : ℕ → ℕ → Bytes → Log → Bytes × Log
  end_line status bytes message w =
      let whole = message ++ format_response status bytes in (whole, write_message whole w)

  unfoldable pub on_request : Request → Handler → Handler
  on_request req h = record h { message = start_line req h.message }

  -- one call: the handler, the log, and what is passed on
  unfoldable pub on_call : Call → Handler → Log → Handler × Log × List Call
  on_call (send_headers status) h w = (record h { status = status }, w, send_headers status ∷ [])
  on_call (send_body chain) h w =
      (record h { bytes = (h.bytes + chain_length chain) % 2 ^ 64 }, w, send_body chain ∷ [])
  on_call (other name) h w = (h, w, other name ∷ [])
  on_call request_complete h w =
      let (message, w') = end_line h.status h.bytes h.message w in
      (record h { message = message }, w', [])
  -- `onError` is that of proxygen's `Filter`: it is passed on, and the handler is deleted
  on_call on_error h w = (h, w, on_error ∷ [])

-- what happens in the server: a call to the filter, or a signal while the request goes on
pub data Event : Type 0 where
  call : Call → Event
  signal : Bool → Bool → Event

module _ (date : ℕ → Bytes) (show : ℕ → Bytes) where
  unfoldable pub on_event : Event → Handler → Log → Handler × Log × List Call
  on_event (call c) h w = on_call date show c h w
  on_event (signal no_name opened) h w = (h, signal_received no_name opened w, [])

  unfoldable pub run : List Event → Handler → Log → Handler × Log × List Call
  run [] h w = (h, w, [])
  run (e ∷ es) h w =
      let (h1, w1, passed) = on_event e h w in
      let (h2, w2, rest) = run es h1 w1 in (h2, w2, passed ++ rest)

-- the filter is there only while there is a log
pub data Chain : Type 0 where
  upstream filtered : Chain

-- `AccessLogHandlerFactory::onRequest`
unfoldable pub make_chain : Log → Chain
make_chain w = if is_some w.writer then filtered else upstream
