-- ===== src/Target/Replies.antt =====
-- A request gets one response.
use lnr_high_performance.Base.{
  ℕ, ◌≤◌, ◌≡◌, refl, sym, ap, ◌∙◌, Bool, true, false, ◌&&◌, ◌||◌, ◌==◌, Option, Option-cases,
  bind_done, done_inj, fault_done, none, some, List, [], ◌∷◌, ◌++◌, arith, ltb, leb, if◌then◌else◌,
  length, Bytes, done, Bool-cases, inl, inr, length-append, not,
}
use lnr_high_performance.PhoneMapping.{none_number}
use lnr_high_performance.PhoneNumber.{from_string}
use lnr_high_performance.Target.{
  Method, get, post, other_method, Header, content_length, content_type, accept, other_header,
  sanitize_header, Response, bad_request, answer, Handler, Input, on_body, on_eom, new_handler,
  sanitize, on_query_param, on_query_params, on_query_string, on_request, body_text, append_body,
  on_input, on_inputs, handle,
}
use lnr_high_performance.Text.{codes, same_text}
use lnr_high_performance.Vendor.{FollyText}

-- the pieces of a body, and the end
unfoldable pub inputs_of : List Bytes → List Input
inputs_of [] = on_eom ∷ []
inputs_of (b ∷ bs) = on_body b ∷ inputs_of bs

unfoldable pub whole : Bytes → List Bytes → Bytes
whole a [] = a
whole a (b ∷ bs) = whole (a ++ b) bs

length-whole : (a : Bytes) (bs : List Bytes) → length a ≤ length (whole a bs)
unfolding whole
length-whole a [] = omega arith
length-whole a (b ∷ bs) = omega (arith, length-append a b, length-whole (a ++ b) bs)

append_body_lem : (o : Option Bytes) (b : Bytes) → append_body o b ≡ body_text o ++ b
unfolding append_body body_text
append_body_lem none b = refl
append_body_lem (some a) b = refl

kept : (b : Bool) (h : Handler) → (if b then record h { need_body = false } else h).body ≡ h.body
kept true h = refl
kept false h = refl

kept' : (b : Bool) (h : Handler) → (if b then h else record h { need_body = false }).body ≡ h.body
kept' true h = refl
kept' false h = refl

module _ (T : FollyText) where
  -- the numbers of a query: the readable `phone[]` values, in order
  unfoldable pub numbers : List (Bytes × Bytes) → List ℕ → List ℕ
  numbers [] ns = ns
  numbers (p ∷ ps) ns = numbers ps (
      if (same_text p.0 (codes "phone%5B%5D") || same_text p.0 (codes "phone[]"))
        && not (from_string T p.1 == none_number)
      then ns ++ from_string T p.1 ∷ []
      else ns)

module _ (T : FollyText) (is_json : Bytes → Bool) (pieces : Bytes → List (Bytes × Bytes))
    (max_length : ℕ) where
  params_numbers :
      (ps : List (Bytes × Bytes)) (h : Handler)
      → on_query_params T is_json pieces max_length ps h ≡ record h { pn = numbers T ps h.pn }
  unfolding on_query_params on_query_param numbers
  params_numbers [] h = refl
  params_numbers (p ∷ ps) h =
      elim (Bool-cases (same_text p.0 (codes "phone%5B%5D") || same_text p.0 (codes "phone[]"))) [
        | inr other ↦ rw (on_query_params, on_query_param, numbers, other) (params_numbers ps h)
        | inl phone ↦ elim (Bool-cases (from_string T p.1 == none_number)) [
          | inl bad ↦
              rw (on_query_params, on_query_param, numbers, phone, bad) (params_numbers ps h)
          | inr good ↦
              rw (on_query_params, on_query_param, numbers, phone, good) (params_numbers ps _)
        ]
      ]

  -- the response that a request calls for, whose headers left `h`
  unfoldable pub response : Method → Handler → Bytes → List Bytes → Response
  response get h query bs = answer h.json (numbers T (pieces query) h.pn)
  response post h query bs =
      if h.need_body && leb (length (whole [] bs)) max_length
      then answer h.json (numbers T (pieces (whole [] bs)) h.pn)
      else bad_request
  response other_method h query bs = bad_request

  abbrev inputs : List Input → Handler → List Response
  inputs = on_inputs T is_json pieces max_length

  closed : (bs : List Bytes) (h : Handler) → h.need_body ≡ false → inputs (inputs_of bs) h ≡ []
  unfolding on_inputs on_input inputs_of
  closed [] h e = rw e
  closed (b ∷ bs) h e = rw e (closed bs (record h { need_body = false }) refl)

  opened :
      (bs : List Bytes) (h : Handler)
      → h.need_body ≡ true
      → length (body_text h.body) ≤ max_length
      → inputs (inputs_of bs) h
        ≡ (if leb (length (whole (body_text h.body) bs)) max_length
            then answer h.json (numbers T (pieces (whole (body_text h.body) bs)) h.pn)
            else bad_request)
          ∷ []
  unfolding on_inputs on_input inputs_of whole on_query_string body_text
  opened [] h e small =
      let fits : leb (length (body_text h.body)) max_length ≡ true = ground arith in
      rw (e, fits, params_numbers (pieces (body_text h.body)) (record h { need_body = true }))
  opened (b ∷ bs) h e small =
      let all = append_body h.body b in
      let same : all ≡ body_text h.body ++ b = append_body_lem h.body b in
      elim (Bool-cases (ltb max_length (length all))) [
        | inl long ↦
            let longer = length-whole (body_text h.body ++ b) bs in
            let count : length all ≡ length (body_text h.body ++ b) = ap length same in
            let over : leb (length (whole (body_text h.body ++ b) bs)) max_length ≡ false =
              ground arith in
            rw (e, long, over)
              (ap (λ x. bad_request ∷ x)
                (closed bs (record h { need_body = false; body = none }) refl))
        | inr short ↦
            rw (e, short, ← same)
              (opened bs (record h { need_body = true; body = some all }) refl (ground arith))
      ]

  sanitize_header-body :
      (x : Header) (h h' : Handler)
      → sanitize_header T is_json pieces max_length x h ≡ done h'
      → h'.body ≡ h.body
  unfolding sanitize_header
  sanitize_header-body (content_length value) h h' s = elim (Option-cases (T.try_to_uint64 value)) [
    | inl e ↦ absurd (fault_done (rw (sanitize_header, e) at s))
    | inr (n, e) ↦
        let r : (if ltb max_length n then record h { need_body = false } else h) ≡ h' =
          done_inj (rw (sanitize_header, e) at s) in
        sym (ap (λ (x : Handler). x.body) r) ∙ kept (ltb max_length n) h
  ]
  sanitize_header-body (content_type value) h h' s =
      sym (ap (λ (x : Handler). x.body) (done_inj s))
      ∙ kept' (same_text value (codes "application/x-www-form-urlencoded")) h
  sanitize_header-body (accept value) h h' s = sym (ap (λ (x : Handler). x.body) (done_inj s))
  sanitize_header-body other_header h h' s = sym (ap (λ (x : Handler). x.body) (done_inj s))

  -- The headers leave the body alone.
  sanitize-body :
      (xs : List Header) (h h' : Handler)
      → sanitize T is_json pieces max_length xs h ≡ done h'
      → h'.body ≡ h.body
  unfolding sanitize
  sanitize-body [] h h' s = sym (ap (λ (x : Handler). x.body) (done_inj s))
  sanitize-body (x ∷ xs) h h' s =
      let (h1, a, b) = bind_done (sanitize_header T is_json pieces max_length x h) _ h' s in
      sanitize-body xs h1 h' b ∙ sanitize_header-body x h h1 a

  -- After its headers are read, a request of any method with any body in pieces gets exactly one
  -- response. A GET is answered by the numbers of its query string; a POST that its headers admit,
  -- with a body of at most `max_query_length`, by those of the body, in whatever pieces it came;
  -- every other request gets "400 Bad Request", once.
  pub handle-response :
      (method : Method) (headers : List Header) (query : Bytes) (bs : List Bytes) (h : Handler)
      → sanitize T is_json pieces max_length headers new_handler ≡ done h
      → handle T is_json pieces max_length method headers query (inputs_of bs)
        ≡ done (response method h query bs ∷ [])
  unfolding handle on_request response on_query_string new_handler body_text
  handle-response get headers query bs h s =
      let h' = record h { need_body = false } in
      rw (s, params_numbers (pieces query) h')
        (ap (λ out. done (answer h.json (numbers T (pieces query) h.pn) ∷ out))
          (closed bs (record h' { pn = numbers T (pieces query) h.pn }) refl))
  handle-response post headers query bs h s =
      let b : h.body ≡ none = sanitize-body headers new_handler h s in
      elim (Bool-cases h.need_body) [
        | inl needed ↦
            rw (s, needed, b)
              (ap done (opened bs (record h { need_body = true; body = none }) refl (omega arith)))
        | inr refused ↦
            rw (s, refused)
              (ap (λ out. done (bad_request ∷ out))
                (closed bs (record h { need_body = false }) refl))
      ]
  handle-response other_method headers query bs h s =
      rw s (ap (λ out. done (bad_request ∷ out)) (closed bs (record h { need_body = false }) refl))
