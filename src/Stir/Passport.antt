-- ===== src/Stir/Passport.antt =====
-- `makePassport` of stir/Passport.cpp. proxygen's Base64, OpenSSL's digest and signature with the
-- two keys of the program, and `folly::Uri` are parameters.
use lnr_high_performance.Base.{
  ℕ, ◌≡◌, ◌≢◌, Bool, true, false, List, [], ◌∷◌, ◌++◌, ◌==◌, ltb, if◌then◌else◌, length, All, Bytes,
  Option, some,
}
use lnr_high_performance.Stir.Types.{SigningRequest}
use lnr_high_performance.Text.{codes}
use lnr_high_performance.Vendor.{is_blank}

-- what a portion of a passport may hold: no white space, and nothing that sets portions apart
abbrev pub InPortion : ℕ → Type 0
InPortion c = (is_blank c ≡ false) × (c ≢ b'.') × (c ≢ b';')

-- `Base64::urlEncode` and `urlDecode`
pub record Base64 : Type 0 where
  pub encode : Bytes → Bytes
  pub decode : Bytes → Bytes
  pub decode-encode : (s : Bytes) → decode (encode s) ≡ s
  pub encode-InPortion : (s : Bytes) → All InPortion (encode s)
  pub encode_empty : encode [] ≡ []

-- `OpenSSLHash::sha256`, `ECDSA_do_sign` with the two numbers that `BN_bn2binpad` writes, and
-- `ECDSA_do_verify`, which has no numbers where the signature does not have 64 bytes
pub record Signer : Type 0 where
  pub sha256 : Bytes → Bytes
  pub sign : Bytes → Bytes × Bytes
  pub is_signature : Bytes → Option (Bytes × Bytes) → Bool
  pub length-sign : (d : Bytes) → (length (sign d).0 ≡ 32) × (length (sign d).1 ≡ 32)
  -- the public key belongs to the private one
  pub is_signature-sign : (d : Bytes) → is_signature d (some (sign d)) ≡ true

abbrev pub x5u_text : Bytes
x5u_text = codes "http://asipto.lab/stir/cert.pem"

-- the order of `StringPiece`
unfoldable pub before : Bytes → Bytes → Bool
before [] [] = false
before [] (d ∷ t) = true
before (c ∷ s) [] = false
before (c ∷ s) (d ∷ t) = if c == d then before s t else ltb c d

unfoldable pub insert_text : Bytes → List Bytes → List Bytes
insert_text s [] = s ∷ []
insert_text s (t ∷ ts) = let rest = insert_text s ts in if before t s then t ∷ rest else s ∷ t ∷ ts

-- `std::sort`
unfoldable pub sort : List Bytes → List Bytes
sort [] = []
sort (s ∷ ss) = insert_text s (sort ss)

-- `folly::join`
unfoldable pub join : Bytes → List Bytes → Bytes
join sep [] = []
join sep (s ∷ []) = s
join sep (s ∷ t ∷ ss) = s ++ (sep ++ join sep (t ∷ ss))

unfoldable pub header_text : Bytes
header_text =
    codes "{\"alg\":\"ES256\",\"ppt\":\"shaken\",\"typ\":\"passport\",\"x5u\":\""
    ++ (x5u_text ++ codes "\"}")

unfoldable pub payload_text : (ℕ → Bytes) → SigningRequest → Bytes
payload_text show req =
    codes "{\"attest\":\""
    ++ (req.attest
        ++ (codes "\",\"dest\":{\"tn\":[\""
            ++ (join (codes "\",\"") (sort req.dest)
                ++ (codes "\"]},\"iat\":"
                    ++ (show req.iat
                        ++ (codes ",\"orig\":{\"tn\":\""
                            ++ (req.orig
                                ++ (codes "\"},\"origid\":\"" ++ (req.origid ++ codes "\"}")))))))))

unfoldable pub signing_string : Base64 → Bytes → Bytes → Bytes
signing_string B header payload = B.encode header ++ b'.' ∷ B.encode payload

-- `makePassport`; `show` is the decimal text of a number
unfoldable pub make_passport : Base64 → Signer → (ℕ → Bytes) → SigningRequest → Bytes
make_passport B S show req =
    let signing = signing_string B header_text (payload_text show req) in
    let (r, s) = S.sign (S.sha256 signing) in
    signing ++ b'.' ∷ (B.encode (r ++ s) ++ (codes ";info=<" ++ (x5u_text ++ codes ">")))
