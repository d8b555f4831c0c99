-- ===== src/Reverse/Body.antt =====
-- The body of an answer, put together from its pieces.
use lnr_high_performance.Base.{
  ℕ, zero, suc, ◌^◌, ◌<◌, ◌≡◌, refl, sym, ap, ◌∙◌, Bool, true, false, Option-cases, bind_done,
  done_inj, no_fuel_done, List, [], ◌∷◌, ◌++◌, map, length, arith, All, Bytes, if◌then◌else◌, ltb,
  ◌==◌, done, inl, inr, Bool-cases,
}
use lnr_high_performance.PhoneMapping.Builder.{Holds}
use lnr_high_performance.PhoneMapping.Cursors.{drain}
use lnr_high_performance.PhoneMapping.Inverse.{inverse_rns-select}
use lnr_high_performance.PhoneMapping.Rows.{Row, Fits, select, sort_by_rn}
use lnr_high_performance.PhoneMapping.{
  Data, PhoneMapping, build, inverse_rns, advance, current_pn, current_rn,
}
use lnr_high_performance.Reverse.Prefix.{In34, on_query_string-In34}
use lnr_high_performance.Reverse.{
  Event, status, headers, body, eom, row_text, flush, events_of, send_body, send_ranges,
  on_query_string, on_request,
}
use lnr_high_performance.Text.{codes}
use lnr_high_performance.Vendor.{Folly, FollyText}
use mathlib.Core.List.{append-nil, append_assoc}

unfoldable pub concat : List Bytes → Bytes
concat [] = []
concat (s ∷ ss) = s ++ concat ss

unfoldable pub row_texts : (ℕ → Bytes) → Bool → List Row → Bytes
row_texts show json [] = []
row_texts show json (r ∷ rows) = row_text show json r ++ row_texts show json rows

concat-append : (a b : List Bytes) → concat (a ++ b) ≡ concat a ++ concat b
unfolding concat
concat-append [] b = refl
concat-append (s ∷ a) b = rw (concat-append a b) (sym (append_assoc s (concat a) (concat b)))

-- pieces sent one after another
pieces :
    (sent out : List Bytes) (rest last text line after : Bytes)
    → concat sent ++ rest ≡ text ++ line
    → concat out ++ last ≡ rest ++ after
    → concat (sent ++ out) ++ last ≡ text ++ (line ++ after)
pieces sent out rest last text line after h k =
    ap (λ x. x ++ last) (concat-append sent out)
    ∙ append_assoc (concat sent) (concat out) last
    ∙ ap (λ x. concat sent ++ x) k
    ∙ sym (append_assoc (concat sent) rest after)
    ∙ ap (λ x. x ++ after) h
    ∙ append_assoc text line after

flush_lem : (text : Bytes) → concat (flush text).0 ++ (flush text).1 ≡ text
unfolding flush concat
flush_lem text = elim (Bool-cases (ltb 1000 (length text))) [
  | inl long ↦ rw long (append-nil (text ++ []) ∙ append-nil text)
  | inr short ↦ rw short
]

-- the text of the rows of two tables, range after range
unfoldable pub range_texts : (ℕ → Bytes) → Bool → List Row → List Row → List (ℕ × ℕ) → Bytes
range_texts show json us ca [] = []
range_texts show json us ca (r ∷ query) =
    row_texts show json (select r.0 r.1 (sort_by_rn us))
    ++ (row_texts show json (select r.0 r.1 (sort_by_rn ca)) ++ range_texts show json us ca query)

-- the text of the events of an answer
unfoldable pub body_of : List Event → Bytes
body_of [] = []
body_of (status n ∷ events) = body_of events
body_of (headers n json ∷ events) = body_of events
body_of (body text ∷ events) = text ++ body_of events
body_of (eom ∷ events) = body_of events

body_of-sent :
    (sent : List Bytes) (events : List Event)
    → body_of (map body sent ++ events) ≡ concat sent ++ body_of events
unfolding body_of concat
body_of-sent [] events = refl
body_of-sent (s ∷ sent) events =
    rw (body_of-sent sent events) (sym (append_assoc s (concat sent) (body_of events)))

body_of-last :
    (last : Bytes) → body_of ((if length last == 0 then [] else body last ∷ []) ++ eom ∷ []) ≡ last
unfolding body_of
body_of-last [] = refl
body_of-last (c ∷ last) =
    let more : (length (c ∷ last) == 0) ≡ false = ground arith in rw more (append-nil (c ∷ last))

-- the body of an answer is what was sent on the way and what was left
body_of-events :
    (json : Bool) (sent : List Bytes) (rest close text : Bytes)
    → concat sent ++ rest ≡ text
    → body_of (events_of json sent (rest ++ close)) ≡ text ++ close
unfolding body_of events_of
body_of-events json sent rest close text h =
    body_of-sent sent _
    ∙ ap (λ x. concat sent ++ x) (body_of-last (rest ++ close))
    ∙ sym (append_assoc (concat sent) rest close)
    ∙ ap (λ x. x ++ close) h

module _ (F : Folly ℕ) (prefetch : ℕ) (show : ℕ → Bytes) (json : Bool) where
  -- what a client's loop sees is what is written
  send_body-drain :
      (fuel : ℕ) (db : PhoneMapping F) (text : Bytes) (rows : List Row)
      → drain F prefetch fuel db ≡ done rows
      → (r : List Bytes × Bytes) × (send_body F prefetch show json fuel db text ≡ done r)
        × (concat r.0 ++ r.1 ≡ text ++ row_texts show json rows)
  unfolding drain send_body row_texts concat
  send_body-drain zero db text rows h = absurd (no_fuel_done h)
  send_body-drain (suc fuel) db text rows h = elim (Option-cases db.cursor) [
    | inl e ↦
        let none_left : [] ≡ rows = done_inj (rw (drain, e) at h) in
        (([], text), rw (send_body, e), rw (← none_left, row_texts) (sym (append-nil text)))
    | inr (c, e) ↦
        let (db', a, h') = bind_done (advance F prefetch db) _ rows (rw (drain, e) at h) in
        let (rest, b, r) = bind_done (drain F prefetch fuel db') _ rows h' in
        let r' : (current_pn c, current_rn c) ∷ rest ≡ rows = done_inj r in
        let line = text ++ row_text show json (current_pn c, current_rn c) in
        let (out, run, same) = send_body-drain fuel db' (flush line).1 rest b in
        (
          ((flush line).0 ++ out.0, out.1),
          rw (send_body, e, a, run),
          pieces (flush line).0 out.0 (flush line).1 out.1 text _ _ (flush_lem line) same
              ∙ ap (λ rs. text ++ row_texts show json rs) r',
        )
  ]

  module _ (pos : 0 < prefetch) where
    -- one `inverseRNs` on built data and the `sendBody` behind it
    send_range :
        {rows : List Row} {d : Data F} (h : Holds F rows d) (from to fuel : ℕ) (text : Bytes)
        → All Fits rows
        → from < 2 ^ 34
        → to < 2 ^ 34
        → length rows < fuel
        → (db : PhoneMapping F) × (r : List Bytes × Bytes) × (inverse_rns F prefetch from to
              (build F d)
            ≡ done db)
          × (send_body F prefetch show json fuel db text ≡ done r)
          × (concat r.0 ++ r.1 ≡ text ++ row_texts show json (select from to (sort_by_rn rows)))
    send_range {rows = rows} {d = d} h from to fuel text fits a b enough =
        let (db, opened, drained) =
          bind_done (inverse_rns F prefetch from to (build F d)) _ _
            (inverse_rns-select F prefetch pos h fits from to fuel a b enough) in
        let (r, run, same) = send_body-drain fuel db text _ drained in (db, r, opened, run, same)

    module _ {us_rows ca_rows : List Row} {us ca : Data F} (u : Holds F us_rows us)
        (c : Holds F ca_rows ca) (us_fits : All Fits us_rows) (ca_fits : All Fits ca_rows)
        (fuel : ℕ) (us_enough : length us_rows < fuel) (ca_enough : length ca_rows < fuel) where
      send_ranges-texts :
          (query : List (ℕ × ℕ)) (text : Bytes)
          → All In34 query
          → (r : List Bytes × Bytes) × (send_ranges F prefetch show json fuel
                (build F us)
                (build F ca)
                query
                text
              ≡ done r)
            × (concat r.0 ++ r.1 ≡ text ++ range_texts show json us_rows ca_rows query)
      unfolding send_ranges range_texts concat
      send_ranges-texts [] text h = (([], text), refl, sym (append-nil text))
      send_ranges-texts (q ∷ query) text h =
          let (db, a, o1, s1, e1) = send_range u q.0 q.1 fuel text us_fits h.0.0 h.0.1 us_enough in
          let (db', b, o2, s2, e2) = send_range c q.0 q.1 fuel a.1 ca_fits h.0.0 h.0.1 ca_enough in
          let (r, run, e3) = send_ranges-texts query b.1 h.1 in
          (
            (a.0 ++ (b.0 ++ r.0), r.1),
            rw (o1, s1, o2, s2, run),
            pieces a.0 (b.0 ++ r.0) a.1 r.1 text _ _ e1 (pieces b.0 r.0 b.1 r.1 a.1 _ _ e2 e3),
          )

      -- Where the rows of both databases fit the bit fields, the numbers being below 2^34, the answer
      -- to a GET ends, and its body is, inside the brackets of a JSON answer, the text of the rows of
      -- each range of the query in turn, the US rows before the Canadian ones, each by ascending
      -- routing number; the pieces that are sent earlier do not show.
      pub on_request-body :
          (T : FollyText) (params : List (Bytes × Bytes))
          → (events : List Event) × (on_request F prefetch show json T fuel true
                (build F us)
                (build F ca)
                params
              ≡ done events)
            × (body_of events
                ≡ ((if json then codes "[\n" else [])
                    ++ range_texts show json us_rows ca_rows (on_query_string T params []))
                  ++ (if json then codes "]\n" else []))
      unfolding on_request body_of concat
      on_request-body T params =
          let query = on_query_string T params [] in
          let (r, run, same) =
            send_ranges-texts query (if json then codes "[\n" else [])
              (on_query_string-In34 T params [] tt) in
          (
            events_of json r.0 (r.1 ++ (if json then codes "]\n" else [])),
            rw run,
            body_of-events json r.0 r.1 (if json then codes "]\n" else []) _ same,
          )
