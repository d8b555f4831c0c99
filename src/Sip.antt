-- ===== src/Sip.antt =====
-- `SIPHandler` of callfwd/SipHandler.cpp: one datagram in, at most one out. The SIP parser, folly's
-- `rtrimWhitespace` and the decimal text of a number (`show`) are parameters.
pub mod Redirect
pub mod Logging
use lnr_high_performance.Base.{
  ℕ, Bool, true, false, not, ◌||◌, Option, none, some, List, [], ◌∷◌, ◌++◌, ◌==◌, if◌then◌else◌,
  length, Bytes, Run, done, ◌>>=◌,
}
use lnr_high_performance.PhoneMapping.{Data, none_number, get_rn}
use lnr_high_performance.PhoneNumber.{from_string}
use lnr_high_performance.Text.{codes}
use lnr_high_performance.Vendor.{Folly, FollyText}

pub data Method : Type 0 where
  options invite other_method : Method

-- the fields of `sip_msg` that the handler reads; a header is its name and its body
pub record Message : Type 0 where
  pub method : Method
  pub user : Bytes
  pub host : Bytes
  pub port : Bytes
  pub via1 : Option (Bytes × Bytes)
  pub from : Option (Bytes × Bytes)
  pub to : Option (Bytes × Bytes)
  pub callid : Option (Bytes × Bytes)
  pub cseq : Option (Bytes × Bytes)

-- `parse_msg`, the type of the first line, and `parse_sip_msg_uri`
pub record Parser : Type 0 where
  pub parse_msg : Bytes → Option Message
  pub is_request : Message → Bool
  pub parse_uri : Message → Option Message

-- `parseMessage`: none stands for -1
unfoldable pub parse_message : Parser → Bytes → Bool → Option Message
parse_message P bytes truncated =
    if (length bytes == 0) || truncated then none else elim (P.parse_msg bytes) [
      | none ↦ none
      | some msg ↦ if P.is_request msg then P.parse_uri msg else none
    ]

module _ (rtrim : Bytes → Bytes) (show : ℕ → Bytes) where
  unfoldable pub output_header : Option (Bytes × Bytes) → Bytes
  output_header none = []
  output_header (some h) = h.0 ++ (codes ": " ++ (rtrim h.1 ++ codes "\r\n"))

  unfoldable pub reply : Message → ℕ → Bytes → Bytes
  reply msg status message =
      (codes "SIP/2.0 " ++ (show status ++ (codes " " ++ (message ++ codes "\r\n"))))
      ++ (output_header msg.via1
          ++ (output_header msg.from
              ++ (output_header msg.to ++ (output_header msg.callid ++ output_header msg.cseq))))

  -- the Contact header and what follows it
  unfoldable pub contact : Bool → Message → ℕ → ℕ → Bytes
  contact rfc4694 msg pn rn =
      (if not (rn == none_number)
        then codes "Contact: <sip:+1"
          ++ (show pn ++ (codes ";rn=+1" ++ (show rn ++ codes ";ndpi@")))
        else if rfc4694
        then codes "Contact: <sip:" ++ (msg.user ++ codes ";ndpi@")
        else codes "Contact: <sip:" ++ (msg.user ++ (codes ";rn=" ++ (msg.user ++ codes ";ndpi@"))))
      ++ (msg.host ++ (codes ":" ++ (msg.port ++ (codes ">\r\n" ++ codes "Location-Info: N\r\n"))))

  module _ (T : FollyText) (F : Folly ℕ) (prefetch : ℕ) (rfc4694 : Bool) where
    -- the lookups of `handleInvite`
    unfoldable pub find_route : Data F → Data F → ℕ → Run ℕ
    find_route us ca pn =
        (if not (pn == none_number) then get_rn F prefetch us pn else done none_number)
        >>= λ (first : ℕ). if first == none_number then get_rn F prefetch ca pn else done first

    -- `handleInvite`, for what `isCallAllowed` answers: the status and the reply
    unfoldable pub handle_invite : ℕ → Data F → Data F → Message → Run (ℕ × Bytes)
    handle_invite verdict us ca msg =
        if verdict == 429
        then done (429, reply msg 429 (codes "Too Many Requests"))
        else if verdict == 401
        then done (401, reply msg 401 (codes "Unauthorized"))
        else (let pn = from_string T msg.user in
            find_route us ca pn >>= λ (rn : ℕ).
            done (302, reply msg 302 (codes "Moved Temporarily") ++ contact rfc4694 msg pn rn))

    -- `onDataAvailable`, for the two mappings where they are loaded: the status that is logged and the
    -- datagram that is sent
    unfoldable pub on_data_available :
        Parser → ℕ → Option (Data F × Data F) → Bytes → Bool → Run (Option (ℕ × Bytes))
    on_data_available P verdict loaded bytes truncated = elim (parse_message P bytes truncated) [
      | none ↦ done none
      | some msg ↦
          (elim loaded [
            | none ↦ done (503, reply msg 503 (codes "Service Unavailable"))
            | some dbs ↦ elim msg.method [
              | options ↦ done (200, reply msg 200 (codes "OK"))
              | invite ↦ handle_invite verdict dbs.0 dbs.1 msg
              | other_method ↦ done (405, reply msg 405 (codes "Method Not Allowed"))
            ]
          ])
          >>= λ (r : ℕ × Bytes). done (some (r.0, r.1 ++ codes "Content-Length: 0\r\n\r\n"))
    ]
