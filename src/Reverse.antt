-- ===== src/Reverse.antt =====
-- `ReverseHandler` of callfwd/ApiHandler.cpp: the rows of the routing numbers with given prefixes.
-- `show` is the decimal text that `folly::format` gives a number; the split of the query string and
-- the reading of the Accept header are proxygen's, so their results are arguments.
pub mod Body
pub mod Prefix
use lnr_high_performance.Base.{
  ℕ, zero, suc, ◌+◌, ◌-◌, ◌*◌, ◌%◌, ◌^◌, Bool, true, false, not, ◌&&◌, ◌||◌, Option, none, some,
  List, [], ◌∷◌, ◌++◌, map, ltb, ◌==◌, if◌then◌else◌, length, Bytes, Run, done, no_fuel, ◌>>=◌,
}
use lnr_high_performance.PhoneMapping.{
  Data, PhoneMapping, Cursor, inverse_rns, advance, current_pn, current_rn,
}
use lnr_high_performance.Text.{codes, same_text}
use lnr_high_performance.Vendor.{Folly, FollyText}

-- what goes to `downstream_`: the status line with the content type, a piece of the body, the end
pub data Event : Type 0 where
  status : ℕ → Event
  headers : ℕ → Bool → Event
  body : Bytes → Event
  eom : Event

-- `for (i = 0; i < n; ++i) x *= 10`, on 64 bits
unfoldable pub times_ten : ℕ → ℕ → ℕ
times_ten zero x = x
times_ten (suc n) x = times_ten n (x * 10 % 2 ^ 64)

-- the range that a `prefix[]` parameter adds to the query
unfoldable pub prefix_range : FollyText → Bytes → Option (ℕ × ℕ)
prefix_range T value = if ltb 10 (length value) then none else elim (T.try_to_uint64 value) [
  | none ↦ none
  | some n ↦
      some (times_ten (10 - length value) n, times_ten (10 - length value) ((n + 1) % 2 ^ 64))
]

-- `onQueryParam`
unfoldable pub on_query_param : FollyText → Bytes × Bytes → List (ℕ × ℕ) → List (ℕ × ℕ)
on_query_param T p query =
    if same_text p.0 (codes "prefix%5B%5D") || same_text p.0 (codes "prefix[]")
    then elim (prefix_range T p.1) [ none ↦ query | some r ↦ query ++ r ∷ [] ]
    else query

-- `splitNameValuePieces` calls it for each parameter
unfoldable pub on_query_string : FollyText → List (Bytes × Bytes) → List (ℕ × ℕ) → List (ℕ × ℕ)
on_query_string T [] query = query
on_query_string T (p ∷ params) query = on_query_string T params (on_query_param T p query)

-- one row of the answer
unfoldable pub row_text : (ℕ → Bytes) → Bool → ℕ × ℕ → Bytes
row_text show json r =
    if json
    then codes "  {\"pn\": \"" ++ show r.0 ++ codes "\", \"rn\": \"" ++ show r.1 ++ codes "\"},\n"
    else show r.0 ++ b',' ∷ show r.1 ++ b'\n' ∷ []

-- `if (record_.size() > 1000)`: what is sent, and what stays
unfoldable pub flush : Bytes → List Bytes × Bytes
flush text = if ltb 1000 (length text) then (text ∷ [], []) else ([], text)

-- the head, the pieces sent on the way, what is left unless it is empty, and the end
unfoldable pub events_of : Bool → List Bytes → Bytes → List Event
events_of json sent last =
    headers 200 json
    ∷ (map body sent ++ ((if length last == 0 then [] else body last ∷ []) ++ eom ∷ []))

module _ (F : Folly ℕ) (prefetch : ℕ) (show : ℕ → Bytes) (json : Bool) where
  -- `sendBody`: the pieces sent, and the text that is still in `record_`
  unfoldable pub send_body : ℕ → PhoneMapping F → Bytes → Run (List Bytes × Bytes)
  send_body zero db text = no_fuel
  send_body (suc fuel) db text = elim db.cursor [
    | none ↦ done ([], text)
    | some c ↦
        let (sent, rest) = flush (text ++ row_text show json (current_pn c, current_rn c)) in
        advance F prefetch db >>= λ (db' : PhoneMapping F).
        send_body fuel db' rest >>= λ (r : List Bytes × Bytes). done (sent ++ r.0, r.1)
  ]

  -- the loop of `onRequest` over the ranges
  unfoldable pub send_ranges : ℕ → Data F → Data F → List (ℕ × ℕ) → Bytes → Run (List Bytes × Bytes)
  send_ranges fuel us ca [] text = done ([], text)
  send_ranges fuel us ca (r ∷ query) text =
      inverse_rns F prefetch r.0 r.1 us >>= λ (db : PhoneMapping F).
      send_body fuel db text >>= λ (a : List Bytes × Bytes).
      inverse_rns F prefetch r.0 r.1 ca >>= λ (db' : PhoneMapping F).
      send_body fuel db' a.1 >>= λ (b : List Bytes × Bytes).
      send_ranges fuel us ca query b.1 >>= λ (c : List Bytes × Bytes).
      done (a.0 ++ (b.0 ++ c.0), c.1)

  -- `onRequest`, for the parameters that the query string splits into
  unfoldable pub on_request :
      FollyText → ℕ → Bool → Data F → Data F → List (Bytes × Bytes) → Run (List Event)
  on_request T fuel is_get us ca params =
      if not is_get
      then done (status 400 ∷ eom ∷ [])
      else (send_ranges fuel us ca (on_query_string T params []) (if json then codes "[\n" else [])
          >>= λ (r : List Bytes × Bytes).
              done (events_of json r.0 (r.1 ++ (if json then codes "]\n" else []))))
