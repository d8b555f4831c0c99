-- ===== src/Sip/Logging.antt =====
-- The lines that `SIPHandler` of callfwd/SipHandler.cpp gives the access log: one formatter serves
-- every datagram. What `parse_msg` finds in the first line is a parameter.
use lnr_high_performance.Acl.{Acls, Origin, is_call_allowed}
use lnr_high_performance.AccessLog.Lines.{lines, lines-write}
use lnr_high_performance.AccessLog.{
  Log, write_message, Request, format_request, format_response, start_line, end_line,
}
use lnr_high_performance.Base.{
  ℕ, ◌≡◌, refl, sym, ap, ◌∙◌, Bool, true, false, Option, none, some, List, [], ◌∷◌, ◌++◌, is_some,
  Bytes, Run, done, ◌>>=◌,
}
use lnr_high_performance.PhoneMapping.{Data}
use lnr_high_performance.Sip.{
  options, invite, other_method, Message, Parser, parse_message, on_data_available,
}
use lnr_high_performance.Vendor.{Folly, FollyText}
use mathlib.Core.List.{append_assoc, append-nil}

module _ (A : Acls) (F : Folly ℕ) where
  -- a datagram; `now` is the clock as the ACL reads it
  pub record Datagram : Type 0 where
    pub peer : Bytes
    pub address : A.Address
    pub bytes : Bytes
    pub truncated : Bool
    pub time : ℕ
    pub now : ℕ

  -- what the handler finds in the process: the ACL, and the two mappings where they are loaded
  pub record World : Type 0 where
    pub acl : Option (Origin A)
    pub loaded : Option (Data F × Data F)

  -- the text in the handler's formatter, and the log
  pub record Session : Type 0 where
    pub message : Bytes
    pub log : Log
    pub world : World

  -- a datagram comes, or a command replaces the ACL or the mappings between two of them
  pub data Event : Type 0 where
    datagram : Datagram → Event
    new_acl : Option (Origin A) → Event
    new_mappings : Option (Data F × Data F) → Event

module _ (A : Acls) (date : ℕ → Bytes) (show : ℕ → Bytes) (rtrim : Bytes → Bytes) (T : FollyText)
    (F : Folly ℕ) (prefetch : ℕ) (rfc4694 : Bool) (P : Parser)
    (first_line : Message → Bytes × Bytes) where
  -- what the log is told of a message
  unfoldable pub request_of : Datagram A F → Message → Request
  request_of d msg = record {
    peer = d.peer;
    method = (first_line msg).0;
    uri = (first_line msg).1;
    start_time = d.time;
  }

  -- the status that is logged, and what is sent, where `isCallAllowed` is asked in this world
  abbrev pub answer_to : Datagram A F → World A F → Run (Option (ℕ × Bytes))
  answer_to d w =
      on_data_available rtrim show T F prefetch rfc4694 P
        (is_call_allowed A d.now d.address w.acl).0 w.loaded d.bytes d.truncated

  -- `isCallAllowed` is called for an INVITE only, once there are mappings, and charges the peer
  unfoldable pub behind : Datagram A F → Message → World A F → World A F
  behind d msg w = elim w.loaded [
    | none ↦ w
    | some dbs ↦ elim msg.method [
      | options ↦ w
      | invite ↦ record w { acl = (is_call_allowed A d.now d.address w.acl).1 }
      | other_method ↦ w
    ]
  ]

  -- `onDataAvailable`, with its calls of the formatter
  unfoldable pub log_datagram : Message → Datagram A F → Session A F → ℕ × Bytes → Session A F
  log_datagram msg d s (status, sent) =
      let (message, log) =
        end_line date show status 0 (start_line date show (request_of d msg) s.message) s.log in
      record { message = message; log = log; world = behind d msg s.world }

  unfoldable pub on_datagram : Datagram A F → Session A F → Run (List Bytes × Session A F)
  on_datagram d s = answer_to d s.world >>= λ (r : Option (ℕ × Bytes)). done (elim r [
    | none ↦ ([], s)
    | some out ↦ elim (parse_message P d.bytes d.truncated) [
      | none ↦ ([], s)
      | some msg ↦ (out.1 ∷ [], log_datagram msg d s out)
    ]
  ])

  unfoldable pub on_event : Event A F → Session A F → Run (List Bytes × Session A F)
  on_event (datagram d) s = on_datagram d s
  on_event (new_acl acl) s =
      done ([], record s { world = record { acl = acl; loaded = s.world.loaded } })
  on_event (new_mappings dbs) s =
      done ([], record s { world = record { acl = s.world.acl; loaded = dbs } })

  unfoldable pub on_events : List (Event A F) → Session A F → Run (List Bytes × Session A F)
  on_events [] s = done ([], s)
  on_events (e ∷ es) s = on_event e s >>= λ (r : List Bytes × Session A F).
      on_events es r.1 >>= λ (rest : List Bytes × Session A F). done (r.0 ++ rest.0, rest.1)

  -- a datagram that is answered in a world
  pub record Answered (d : Datagram A F) (w : World A F) : Type 0 where
    pub msg : Message
    pub status : ℕ
    pub sent : Bytes
    pub parsed : parse_message P d.bytes d.truncated ≡ some msg
    pub answered : answer_to d w ≡ done (some (status, sent))

  abbrev pub line_of : (d : Datagram A F) (w : World A F) → Answered d w → Bytes
  line_of d w a =
      format_request date show (request_of d a.msg) ++ format_response date show a.status 0

  -- each datagram is answered in the world that the events before it leave
  abbrev pub AllAnswered : List (Event A F) → World A F → Type 0
  AllAnswered [] w = Unit
  AllAnswered (datagram d ∷ es) w = (a : Answered d w) × AllAnswered es (behind d a.msg w)
  AllAnswered (new_acl acl ∷ es) w = AllAnswered es (record { acl = acl; loaded = w.loaded })
  AllAnswered (new_mappings dbs ∷ es) w = AllAnswered es (record { acl = w.acl; loaded = dbs })

  abbrev pub replies : (es : List (Event A F)) (w : World A F) → AllAnswered es w → List Bytes
  replies [] w as' = []
  replies (datagram d ∷ es) w as' = as'.0.sent ∷ replies es (behind d as'.0.msg w) as'.1
  replies (new_acl acl ∷ es) w as' = replies es (record { acl = acl; loaded = w.loaded }) as'
  replies (new_mappings dbs ∷ es) w as' = replies es (record { acl = w.acl; loaded = dbs }) as'

  -- each datagram's line behind all that were written before
  abbrev pub running :
      Bytes → (es : List (Event A F)) (w : World A F) → AllAnswered es w → List Bytes
  running before [] w as' = []
  running before (datagram d ∷ es) w as' =
      (before ++ line_of d w as'.0)
      ∷ running (before ++ line_of d w as'.0) es (behind d as'.0.msg w) as'.1
  running before (new_acl acl ∷ es) w as' =
      running before es (record { acl = acl; loaded = w.loaded }) as'
  running before (new_mappings dbs ∷ es) w as' =
      running before es (record { acl = w.acl; loaded = dbs }) as'

  on_datagram-Answered :
      (d : Datagram A F) (s : Session A F) (a : Answered d s.world)
      → on_datagram d s ≡ done (a.sent ∷ [], log_datagram a.msg d s (a.status, a.sent))
  unfolding on_datagram
  on_datagram-Answered d s a = rw (a.answered, a.parsed) refl

  false-true : ¬ (◌≡◌ {A = Bool} false true)
  false-true h = cc

  stays_open :
      (m : Bytes) (o : Option (List Bytes)) (f : List Bytes)
      → is_some o ≡ true
      → is_some (write_message m (record { writer = o; flushed = f })).writer ≡ true
  unfolding write_message
  stays_open m none f h = absurd (false-true h)
  stays_open m (some ms) f h = refl

  logged_line :
      (d : Datagram A F) (s : Session A F) (a : Answered d s.world)
      → is_some s.log.writer ≡ true
      → let s' = log_datagram a.msg d s (a.status, a.sent) in
        (s'.message ≡ s.message ++ line_of d s.world a)
        × (lines s'.log ≡ lines s.log ++ (s.message ++ line_of d s.world a) ∷ [])
        × (is_some s'.log.writer ≡ true)
  unfolding log_datagram end_line start_line
  logged_line d s a opened =
      let fr = format_request date show (request_of d a.msg) in
      let whole = append_assoc s.message fr (format_response date show a.status 0) in
      (
        whole,
        lines-write _ s.log.writer s.log.flushed opened ∙ ap (λ m. lines s.log ++ m ∷ []) whole,
        stays_open _ s.log.writer s.log.flushed opened,
      )

  -- Datagrams that are answered, each in the world that the events before it leave, are sent their
  -- replies in order, whatever ACLs and mappings are put in place between them, and each INVITE
  -- that the ACL is asked for leaves its charged rules to the next. While a log is open each
  -- datagram adds one text to it: its own line, with the status of its reply and 0 bytes, behind
  -- the lines of all the datagrams before it once more.
  pub on_events-running :
      (es : List (Event A F)) (s : Session A F) (answered : AllAnswered es s.world)
      → is_some s.log.writer ≡ true
      → (s' : Session A F) × (on_events es s ≡ done (replies es s.world answered, s'))
        × (lines s'.log ≡ lines s.log ++ running s.message es s.world answered)
  unfolding on_events on_event log_datagram
  on_events-running [] s answered opened = (s, refl, sym (append-nil (lines s.log)))
  on_events-running (new_acl acl ∷ es) s answered opened =
      let s1 : Session A F = record s { world = record { acl = acl; loaded = s.world.loaded } } in
      let (s', ran, rest) = on_events-running es s1 answered opened in (s', rw ran refl, rest)
  on_events-running (new_mappings dbs ∷ es) s answered opened =
      let s1 : Session A F = record s { world = record { acl = s.world.acl; loaded = dbs } } in
      let (s', ran, rest) = on_events-running es s1 answered opened in (s', rw ran refl, rest)
  on_events-running (datagram d ∷ es) s answered opened =
      let a = answered.0 in
      let s1 = log_datagram a.msg d s (a.status, a.sent) in
      let (message, grown, still) = logged_line d s a opened in
      let (s', ran, rest) = on_events-running es s1 answered.1 still in
      let tail =
        running (s.message ++ line_of d s.world a) es (behind d a.msg s.world) answered.1 in
      let later = ap (λ m. running m es (behind d a.msg s.world) answered.1) message in
      (
        s',
        rw (on_datagram-Answered d s a, ran) refl,
        rest
            ∙ ap (λ ls. lines s1.log ++ ls) later
            ∙ ap (λ ls. ls ++ tail) grown
            ∙ append_assoc (lines s.log) ((s.message ++ line_of d s.world a) ∷ []) tail,
      )
