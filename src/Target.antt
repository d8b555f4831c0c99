-- ===== src/Target.antt =====
-- The life of a `/target` request in `TargetHandler` of callfwd/ApiHandler.cpp. proxygen's split of a
-- query string, its reading of an Accept header and the flag `max_query_length` are parameters.
pub mod Replies
pub mod Answer
pub mod Columns
pub mod Lookup
pub mod Page
pub mod Record
use lnr_high_performance.Base.{
  ℕ, Bool, true, false, not, ◌||◌, Option, none, some, List, [], ◌∷◌, ◌++◌, ltb, ◌==◌,
  if◌then◌else◌, length, Bytes, Run, done, fault, ◌>>=◌,
}
use lnr_high_performance.PhoneMapping.{none_number}
use lnr_high_performance.PhoneNumber.{from_string}
use lnr_high_performance.Text.{codes, same_text}
use lnr_high_performance.Vendor.{FollyText}

pub data Method : Type 0 where
  get post other_method : Method

-- the headers that `sanitizeHeader` tells apart
pub data Header : Type 0 where
  content_length content_type accept : Bytes → Header
  other_header : Header

-- what goes downstream: "400 Bad Request", or the answer of `onQueryComplete`
pub data Response : Type 0 where
  bad_request : Response
  answer : Bool → List ℕ → Response

pub record Handler : Type 0 where
  pub need_body : Bool
  pub json : Bool
  pub body : Option Bytes
  pub pn : List ℕ

pub data Input : Type 0 where
  on_body : Bytes → Input
  on_eom : Input

unfoldable pub new_handler : Handler
new_handler = record { need_body = true; json = false; body = none; pn = [] }

unfoldable pub body_text : Option Bytes → Bytes
body_text none = []
body_text (some a) = a

unfoldable pub append_body : Option Bytes → Bytes → Bytes
append_body none b = b
append_body (some a) b = a ++ b

module _ (T : FollyText) (is_json : Bytes → Bool) (pieces : Bytes → List (Bytes × Bytes))
    (max_length : ℕ) where
  -- a length that is no number throws out of a `noexcept` function
  unfoldable pub sanitize_header : Header → Handler → Run Handler
  sanitize_header (content_length value) h = elim (T.try_to_uint64 value) [
    | none ↦ fault
    | some n ↦ done (if ltb max_length n then record h { need_body = false } else h)
  ]
  sanitize_header (content_type value) h = done (
      if same_text value (codes "application/x-www-form-urlencoded")
      then h
      else record h { need_body = false })
  sanitize_header (accept value) h = done (record h { json = is_json value })
  sanitize_header other_header h = done h

  unfoldable pub sanitize : List Header → Handler → Run Handler
  sanitize [] h = done h
  sanitize (x ∷ xs) h = sanitize_header x h >>= λ (h' : Handler). sanitize xs h'

  unfoldable pub on_query_param : Bytes × Bytes → Handler → Handler
  on_query_param p h =
      let n = from_string T p.1 in
      if same_text p.0 (codes "phone%5B%5D") || same_text p.0 (codes "phone[]")
      then (if n == none_number then h else record h { pn = h.pn ++ n ∷ [] })
      else h

  unfoldable pub on_query_params : List (Bytes × Bytes) → Handler → Handler
  on_query_params [] h = h
  on_query_params (p ∷ ps) h = on_query_params ps (on_query_param p h)

  unfoldable pub on_query_string : Bytes → Handler → Handler
  on_query_string query h = on_query_params (pieces query) h

  -- the head of the request: the handler, and what it sends
  unfoldable pub on_request : Method → List Header → Bytes → Handler → Run (Handler × List Response)
  on_request method headers query h0 = sanitize headers h0 >>= λ (h : Handler). elim method [
    | get ↦
        let h' = on_query_string query (record h { need_body = false }) in
        done (h', answer h'.json h'.pn ∷ [])
    | post ↦
        if h.need_body
        then done (h, [])
        else done (record h { need_body = false }, bad_request ∷ [])
    | other_method ↦ done (record h { need_body = false }, bad_request ∷ [])
  ]

  -- `onBody` and `onEOM`
  unfoldable pub on_input : Input → Handler → Handler × List Response
  on_input (on_body b) h =
      let all = append_body h.body b in
      if not h.need_body
      then (h, [])
      else if ltb max_length (length all)
      then (record h { need_body = false; body = none }, bad_request ∷ [])
      else (record h { body = some all }, [])
  on_input on_eom h =
      if h.need_body
      then (let h' = on_query_string (body_text h.body) h in (h', answer h'.json h'.pn ∷ []))
      else (h, [])

  unfoldable pub on_inputs : List Input → Handler → List Response
  on_inputs [] h = []
  on_inputs (i ∷ is) h = let (h', out) = on_input i h in out ++ on_inputs is h'

  -- a whole request: its head, the pieces of its body, and the end
  unfoldable pub handle : Method → List Header → Bytes → List Input → Run (List Response)
  handle method headers query inputs =
      on_request method headers query new_handler >>= λ (r : Handler × List Response).
      done (r.1 ++ on_inputs inputs r.0)
