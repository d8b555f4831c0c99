-- ===== src/AccessLog/Lines.antt =====
-- The lines of callfwd/AccessLog.cpp: one for each request, in the order in which they complete.
use lnr_high_performance.AccessLog.{
  Log, write_message, retire, signal_received, Request, Call, send_headers, send_body, other,
  request_complete, on_error, Handler, new_handler, chain_length, format_request, format_response,
  on_request, on_call, end_line, start_line, Event, call, signal, on_event, run,
}
use lnr_high_performance.Base.{
  ℕ, arith, ◌+◌, ◌%◌, ◌^◌, ◌<◌, ◌≡◌, refl, sym, ap, ◌∙◌, Bool, true, false, Option, none, some,
  List, [], ◌∷◌, ◌++◌, is_some, All, Bytes,
}
use mathlib.Core.List.{append_assoc, append-nil}

-- all that was given to the log, in order
abbrev pub lines : Log → List Bytes
lines w = retire w.writer w.flushed

-- what a request does until it completes or is aborted
abbrev pub IsOpen : Event → Type 0
IsOpen (call request_complete) = ⊥
IsOpen (call on_error) = ⊥
IsOpen (call (send_headers s)) = Unit
IsOpen (call (send_body b)) = Unit
IsOpen (call (other n)) = Unit
IsOpen (signal a b) = Unit

-- the calls among the events, the status of the last headers, and the length of all bodies
abbrev pub calls : List Event → List Call
calls [] = []
calls (call c ∷ es) = c ∷ calls es
calls (signal a b ∷ es) = calls es

abbrev pub last_status : ℕ → List Event → ℕ
last_status old [] = old
last_status old (call (send_headers s) ∷ es) = last_status s es
last_status old (call (send_body b) ∷ es) = last_status old es
last_status old (call (other n) ∷ es) = last_status old es
last_status old (call request_complete ∷ es) = last_status old es
last_status old (call on_error ∷ es) = last_status old es
last_status old (signal a b ∷ es) = last_status old es

abbrev pub total : List Event → ℕ
total [] = 0
total (call (send_body b) ∷ es) = chain_length b + total es
total (call (send_headers s) ∷ es) = total es
total (call (other n) ∷ es) = total es
total (call request_complete ∷ es) = total es
total (call on_error ∷ es) = total es
total (signal a b ∷ es) = total es

lines-signal_received : (a b : Bool) (w : Log) → lines (signal_received a b w) ≡ lines w
unfolding signal_received retire
lines-signal_received true b w = refl
lines-signal_received false false w = refl
lines-signal_received false true w = append-nil (retire w.writer w.flushed)

open-signal_received :
    (a b : Bool) (w : Log) → is_some w.writer ≡ true → is_some (signal_received a b w).writer ≡ true
unfolding signal_received
open-signal_received true b w h = h
open-signal_received false false w h = h
open-signal_received false true w h = refl

none_open : ¬ (◌≡◌ {A = Bool} false true)
none_open h = cc

pub lines-write :
    (m : Bytes) (o : Option (List Bytes)) (f : List Bytes)
    → is_some o ≡ true
    → lines (write_message m (record { writer = o; flushed = f })) ≡ retire o f ++ m ∷ []
unfolding write_message retire
lines-write m none f h = absurd (none_open h)
lines-write m (some ms) f h = sym (append_assoc f ms (m ∷ []))

module _ (date : ℕ → Bytes) (show : ℕ → Bytes) where
  abbrev line : Handler → List Event → Bytes
  line h es =
      h.message
      ++ format_response date show (last_status h.status es) ((h.bytes + total es) % 2 ^ 64)

  abbrev Logged : List Event → Handler → Log → Handler × Log × List Call → Type 0
  Logged es h w (h', w', passed) = (lines w' ≡ lines w ++ line h es ∷ []) × (passed ≡ calls es)

  run-Logged :
      (es : List Event) (h : Handler) (w : Log)
      → All IsOpen es
      → is_some w.writer ≡ true
      → h.bytes < 2 ^ 64
      → Logged es h w (run date show (es ++ call request_complete ∷ []) h w)
  unfolding run on_event on_call end_line
  run-Logged [] h w opens on small =
      let exact : (h.bytes + 0) % 2 ^ 64 ≡ h.bytes = omega arith in
      (rw exact (lines-write _ w.writer w.flushed on), refl)
  run-Logged (call (send_headers s) ∷ es) h w opens on small =
      let (same, passed) = run-Logged es (record h { status = s }) w opens.1 on small in
      (same, ap (λ cs. send_headers s ∷ cs) passed)
  run-Logged (call (send_body b) ∷ es) h w opens on small =
      let n = (h.bytes + chain_length b) % 2 ^ 64 in
      let (same, passed) = run-Logged es (record h { bytes = n }) w opens.1 on (omega arith) in
      let sum : (n + total es) % 2 ^ 64 ≡ (h.bytes + (chain_length b + total es)) % 2 ^ 64 =
        omega arith in
      (
        same
            ∙ ap
                (λ k.
                  lines w
                  ++ (h.message ++ format_response date show (last_status h.status es) k) ∷ [])
                sum,
        ap (λ cs. send_body b ∷ cs) passed,
      )
  run-Logged (call (other n) ∷ es) h w opens on small =
      let (same, passed) = run-Logged es h w opens.1 on small in
      (same, ap (λ cs. other n ∷ cs) passed)
  run-Logged (call request_complete ∷ es) h w opens on small = absurd opens.0
  run-Logged (call on_error ∷ es) h w opens on small = absurd opens.0
  run-Logged (signal a b ∷ es) h w opens on small =
      let (same, passed) =
        run-Logged es h (signal_received a b w) opens.1 (open-signal_received a b w on) small in
      (same ∙ ap (λ ls. ls ++ line h es ∷ []) (lines-signal_received a b w), passed)

  run-aborted :
      (es : List Event) (h : Handler) (w : Log)
      → All IsOpen es
      → lines (run date show (es ++ call on_error ∷ []) h w).1 ≡ lines w
  unfolding run on_event on_call
  run-aborted [] h w opens = refl
  run-aborted (call (send_headers s) ∷ es) h w opens =
      run-aborted es (record h { status = s }) w opens.1
  run-aborted (call (send_body b) ∷ es) h w opens =
      run-aborted es (record h { bytes = (h.bytes + chain_length b) % 2 ^ 64 }) w opens.1
  run-aborted (call (other n) ∷ es) h w opens = run-aborted es h w opens.1
  run-aborted (call request_complete ∷ es) h w opens = absurd opens.0
  run-aborted (call on_error ∷ es) h w opens = absurd opens.0
  run-aborted (signal a b ∷ es) h w opens =
      run-aborted es h (signal_received a b w) opens.1 ∙ lines-signal_received a b w

  -- While a log is open, a request leaves exactly one line behind those that are there, whatever
  -- it sends and however often the file changes before it completes. The line has the request, the
  -- status of the last headers and the length of all bodies modulo 2^64. What the handler sends is
  -- passed on in its order, and the completion of the request is not. A request that ends with an
  -- error instead leaves no line.
  pub run-line :
      (req : Request) (es : List Event) (w : Log)
      → All IsOpen es
      → is_some w.writer ≡ true
      → let (h', w', passed) =
          run date show
            (es ++ call request_complete ∷ [])
            (on_request date show req new_handler)
            w in
        (lines w'
          ≡ lines w
            ++ (format_request date show req
                ++ format_response date show (last_status 0 es) (total es % 2 ^ 64))
              ∷ [])
        × (passed ≡ calls es)
        × (lines
              (run date show (es ++ call on_error ∷ []) (on_request date show req new_handler) w).1
            ≡ lines w)
  unfolding on_request new_handler start_line
  run-line req es w opens on =
      let (same, passed) =
        run-Logged es (on_request date show req new_handler) w opens on (omega arith) in
      let from_zero : 0 + total es ≡ total es = omega arith in
      (
        same
            ∙ ap
                (λ n.
                  lines w
                  ++ (format_request date show req
                      ++ format_response date show (last_status 0 es) (n % 2 ^ 64))
                    ∷ [])
                from_zero,
        passed,
        run-aborted es (on_request date show req new_handler) w opens,
      )
