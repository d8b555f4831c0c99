-- ===== src/Sip/Redirect.antt =====
-- The reply to a datagram, by the rows of the two databases.
use lnr_high_performance.Base.{
  subst, sym, Option, Run, ℕ, ◌<◌, ◌≡◌, refl, ap, ◌∙◌, Bool, false, none, some, List, [], ◌∷◌, ◌++◌,
  ◌==◌, if◌then◌else◌, Bytes, done, ◌>>=◌, All, arith, Bool-cases, inl, inr, Option-cases, ==_iff,
}
use lnr_high_performance.PhoneMapping.Answers.{get_rns-route}
use lnr_high_performance.PhoneMapping.Builder.{Holds}
use lnr_high_performance.PhoneMapping.Rows.{Row, Fits, find_row, route, first_route}
use lnr_high_performance.PhoneMapping.{Data, none_number, build, get_rn}
use lnr_high_performance.PhoneNumber.{from_string}
use lnr_high_performance.Sip.{
  Method, options, invite, other_method, Message, Parser, parse_message, output_header, reply,
  contact, find_route, handle_invite, on_data_available,
}
use lnr_high_performance.Text.{codes}
use lnr_high_performance.Vendor.{Folly, FollyText}
use mathlib.Core.List.{append_assoc}

-- No row of a table that fits has NONE as its number.
route-none_number : (rows : List Row) → All Fits rows → route rows none_number ≡ none_number
unfolding route find_row
route-none_number [] h = refl
route-none_number (r ∷ rows) h =
    let other : (r.0 == none_number) ≡ false = ground (arith, h.0.0) in
    rw other (route-none_number rows h.1)

module _ (F : Folly ℕ) (prefetch : ℕ) (pos : 0 < prefetch) where
  get_rn-route :
      {rows : List Row} {d : Data F} (h : Holds F rows d) (pn : ℕ)
      → get_rn F prefetch (build F d) pn ≡ done (route rows pn)
  unfolding get_rn
  get_rn-route h pn = rw (get_rns-route F prefetch pos h (pn ∷ []))

module _ (rtrim : Bytes → Bytes) (show : ℕ → Bytes) (T : FollyText) (F : Folly ℕ) (prefetch : ℕ)
    (rfc4694 : Bool) where
  -- a header, where the message has it
  abbrev header : Option (Bytes × Bytes) → Bytes → Bytes
  header none end = end
  header (some h) end = h.0 ++ (codes ": " ++ (rtrim h.1 ++ (codes "\r\n" ++ end)))

  -- the reply with a status and its reason: the headers of the message that it repeats, and `more`
  abbrev pub response : Message → ℕ → Bytes → Bytes → Bytes
  response msg status reason more =
      codes "SIP/2.0 "
      ++ (show status
          ++ (codes " "
              ++ (reason
                  ++ (codes "\r\n"
                      ++ header msg.via1 (
                          header msg.from
                            (header msg.to (header msg.callid (header msg.cseq more))))))))

  -- The Contact of a redirect: the number and its routing number where there is one, else the user
  -- part, which is its own routing number unless the flag `rfc4694` is set.
  abbrev pub target : Message → ℕ → ℕ → Bytes
  target msg pn rn =
      if rn == none_number
      then (if rfc4694 then msg.user else msg.user ++ (codes ";rn=" ++ msg.user))
      else codes "+1" ++ (show pn ++ (codes ";rn=+1" ++ show rn))

  abbrev pub redirected : Message → ℕ → ℕ → Bytes
  redirected msg pn rn =
      codes "Contact: <sip:"
      ++ (target msg pn rn
          ++ (codes ";ndpi@"
              ++ (msg.host ++ (codes ":" ++ (msg.port ++ codes ">\r\nLocation-Info: N\r\n")))))

  output_header-header :
      (h : Option (Bytes × Bytes)) (end : Bytes) → output_header rtrim show h ++ end ≡ header h end
  unfolding output_header
  output_header-header none end = refl
  output_header-header (some h) end = simp (append_assoc)

  header-append :
      (h : Option (Bytes × Bytes)) (end more : Bytes)
      → header h end ++ more ≡ header h (end ++ more)
  header-append none end more = refl
  header-append (some h) end more = simp (append_assoc)

  reply-response :
      (msg : Message) (status : ℕ) (reason more : Bytes)
      → reply rtrim show msg status reason ++ more ≡ response msg status reason more
  unfolding reply
  reply-response msg status reason more = simp (append_assoc, output_header-header, header-append)

  contact-redirected :
      (msg : Message) (pn rn : ℕ) → contact rtrim show rfc4694 msg pn rn ≡ redirected msg pn rn
  unfolding contact
  contact-redirected msg pn rn = elim (Bool-cases (rn == none_number)) [
    | inr known ↦ rw known (simp (append_assoc))
    | inl unknown ↦ elim (Bool-cases rfc4694) [
      | inl t ↦ rw (unknown, t) (simp (append_assoc))
      | inr f ↦ rw (unknown, f) (simp (append_assoc))
    ]
  ]

  -- the status of the reply to an INVITE, its reason, and what follows the headers
  unfoldable pub redirect : ℕ → List Row → List Row → Message → ℕ × Bytes × Bytes
  redirect verdict us ca msg =
      if verdict == 429
      then (429, codes "Too Many Requests", [])
      else if verdict == 401
      then (401, codes "Unauthorized", [])
      else (
        302,
        codes "Moved Temporarily",
        redirected msg (from_string T msg.user) (first_route us ca (from_string T msg.user)),
      )

  -- the same for a request with a given method, by the rows of the two databases once they are loaded
  unfoldable pub answer : Method → ℕ → Option (List Row × List Row) → Message → ℕ × Bytes × Bytes
  answer method verdict none msg = (503, codes "Service Unavailable", [])
  answer options verdict (some rows) msg = (200, codes "OK", [])
  answer invite verdict (some rows) msg = redirect verdict rows.0 rows.1 msg
  answer other_method verdict (some rows) msg = (405, codes "Method Not Allowed", [])

  -- the status, and the whole message
  abbrev pub finished : Message → ℕ × Bytes × Bytes → ℕ × Bytes
  finished msg r = (r.0, response msg r.0 r.1 (r.2 ++ codes "Content-Length: 0\r\n\r\n"))

  -- the mappings that are loaded are those of the rows, and those of the US fit the bit fields
  abbrev pub Serves : Option (List Row × List Row) → Option (Data F × Data F) → Type 0
  Serves none none = Unit
  Serves (some rows) (some dbs) =
      (us ca : Data F) × Holds F rows.0 us
      × Holds F rows.1 ca
      × (dbs.0 ≡ build F us)
      × (dbs.1 ≡ build F ca)
      × All Fits rows.0
  Serves _ _ = ⊥

  -- the end of the message, behind what the program writes
  ended :
      (msg : Message) (status : ℕ) (reason more : Bytes)
      → ◌≡◌ {A = Run (Option (ℕ × Bytes))}
          (done (
            some (
              status,
              (reply rtrim show msg status reason ++ more) ++ codes "Content-Length: 0\r\n\r\n",
            )))
          (done (some (finished msg (status, reason, more))))
  ended msg status reason more =
      ap (λ x. done (some (status, x)))
        (append_assoc (reply rtrim show msg status reason) more _
          ∙ reply-response msg status reason (more ++ codes "Content-Length: 0\r\n\r\n"))

  ended_alone :
      (msg : Message) (status : ℕ) (reason : Bytes)
      → ◌≡◌ {A = Run (Option (ℕ × Bytes))}
          (done (
            some (status, reply rtrim show msg status reason ++ codes "Content-Length: 0\r\n\r\n")))
          (done (some (finished msg (status, reason, []))))
  ended_alone msg status reason =
      ap (λ x. done (some (status, x)))
        (reply-response msg status reason (codes "Content-Length: 0\r\n\r\n"))

  module _ (pos : 0 < prefetch) {us_rows ca_rows : List Row} {us ca : Data F}
      (u : Holds F us_rows us) (c : Holds F ca_rows ca) (fits : All Fits us_rows) where
    -- the lookups of an INVITE, in the US first
    lookups :
        (pn : ℕ)
        → find_route rtrim show T F prefetch rfc4694 (build F us) (build F ca) pn
          ≡ done (first_route us_rows ca_rows pn)
    unfolding find_route first_route
    lookups pn = elim (Bool-cases (pn == none_number)) [
      | inl unreadable ↦
          let e : route us_rows pn ≡ none_number =
            ap (route us_rows) ((==_iff pn none_number).0 unreadable)
            ∙ route-none_number us_rows fits in
          rw (unreadable, get_rn-route F prefetch pos c pn, first_route, e)
      | inr readable ↦
          rw (readable, get_rn-route F prefetch pos u pn, get_rn-route F prefetch pos c pn)
            (elim (Bool-cases (route us_rows pn == none_number)) [
              | inl missing ↦ rw (missing, first_route)
              | inr known ↦ rw (known, first_route)
            ])
    ]

    handle_invite-redirect :
        (verdict : ℕ) (msg : Message)
        → (handle_invite rtrim show T F prefetch rfc4694 verdict (build F us) (build F ca) msg
            >>= λ (r : ℕ × Bytes). done (some (r.0, r.1 ++ codes "Content-Length: 0\r\n\r\n")))
          ≡ done (some (finished msg (redirect verdict us_rows ca_rows msg)))
    unfolding handle_invite redirect
    handle_invite-redirect verdict msg = elim (Bool-cases (verdict == 429)) [
      | inl many ↦ rw many (ended_alone msg 429 (codes "Too Many Requests"))
      | inr few ↦ elim (Bool-cases (verdict == 401)) [
        | inl denied ↦ rw (few, denied) (ended_alone msg 401 (codes "Unauthorized"))
        | inr allowed ↦
            rw (few, allowed, lookups (from_string T msg.user), contact-redirected)
              (ended msg 302 (codes "Moved Temporarily") _)
      ]
    ]

    dispatched :
        (m : Method) (verdict : ℕ) (msg : Message)
        → ((elim m [
          | options ↦ done (200, reply rtrim show msg 200 (codes "OK"))
          | invite ↦
              handle_invite rtrim show T F prefetch rfc4694 verdict (build F us) (build F ca) msg
          | other_method ↦ done (405, reply rtrim show msg 405 (codes "Method Not Allowed"))
        ])
            >>= λ (r : ℕ × Bytes). done (some (r.0, r.1 ++ codes "Content-Length: 0\r\n\r\n")))
          ≡ done (some (finished msg (answer m verdict (some (us_rows, ca_rows)) msg)))
    unfolding answer
    dispatched options verdict msg = ended_alone msg 200 (codes "OK")
    dispatched invite verdict msg = handle_invite-redirect verdict msg
    dispatched other_method verdict msg = ended_alone msg 405 (codes "Method Not Allowed")

  pub on_data_available-answer :
      (rows : Option (List Row × List Row)) (loaded : Option (Data F × Data F)) (P : Parser)
      (verdict : ℕ) (bytes : Bytes) (truncated : Bool)
      → 0 < prefetch
      → Serves rows loaded
      → on_data_available rtrim show T F prefetch rfc4694 P verdict loaded bytes truncated
        ≡ done (elim (parse_message P bytes truncated) [
          | none ↦ none
          | some msg ↦ some (finished msg (answer msg.method verdict rows msg))
        ])
  unfolding on_data_available answer
  on_data_available-answer none (some dbs) P verdict bytes truncated pos serves = absurd serves
  on_data_available-answer (some rows) none P verdict bytes truncated pos serves = absurd serves
  on_data_available-answer none none P verdict bytes truncated pos serves =
      elim (Option-cases (parse_message P bytes truncated)) [
        | inl e ↦ rw (on_data_available, e)
        | inr (msg, e) ↦
            rw (on_data_available, e) (ended_alone msg 503 (codes "Service Unavailable"))
      ]
  on_data_available-answer (some rows) (some dbs) P verdict bytes truncated pos
        (us, ca, u, c, us_built, ca_built, fits) =
      elim (Option-cases (parse_message P bytes truncated)) [
        | inl e ↦ rw (on_data_available, e)
        | inr (msg, e) ↦
            subst
              (λ (x : Data F × Data F).
                on_data_available rtrim show T F prefetch rfc4694 P verdict (some x) bytes truncated
                ≡ done (elim (parse_message P bytes truncated) [
                  | none ↦ none
                  | some msg ↦ some (finished msg (answer msg.method verdict (some rows) msg))
                ]))
              (sym (λ i. (us_built i, ca_built i)))
              (rw (on_data_available, e) (dispatched pos u c fits msg.method verdict msg))
      ]
