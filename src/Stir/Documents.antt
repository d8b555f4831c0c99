-- ===== src/Stir/Documents.antt =====
-- What the texts of `makePassport` in stir/Passport.cpp are to say: the documents of a passport, their
-- compact JSON, and the values that `folly::dynamic` has for them.
use lnr_high_performance.Base.{
  arith, is_some, ℕ, ◌^◌, ◌<◌, ◌≡◌, Bool, true, refl, Option, none, some, List, [], ◌∷◌, ◌++◌, map,
  if◌then◌else◌, is_empty, false, Bytes, ap, sym, ◌∙◌,
}
use lnr_high_performance.Stir.Json.{Json, value, parsed}
use lnr_high_performance.Stir.Passport.{
  x5u_text, header_text, payload_text, insert_text, sort, join,
}
use lnr_high_performance.Stir.Types.{SigningRequest}
use lnr_high_performance.Text.{codes, same_text}
use mathlib.Core.List.{append_assoc}

mutual
  pub data Document : Type 0 where
    string : Bytes → Document
    natural : ℕ → Document
    strings : List Bytes → Document
    members : Members → Document

  pub data Members : Type 0 where
    no_members : Members
    with_member : Bytes → Document → Members → Members

abbrev quoted : Bytes → Bytes → Bytes
quoted s end = b'"' ∷ (s ++ b'"' ∷ end)

abbrev listed : List Bytes → Bytes → Bytes
listed [] end = end
listed (s ∷ []) end = quoted s end
listed (s ∷ t ∷ ss) end = quoted s (b',' ∷ listed (t ∷ ss) end)

-- The JSON of a document in front of a text, where no text has a quote, a backslash or a control
-- character in it.
unfoldable mutual
  pub print : (ℕ → Bytes) → Document → Bytes → Bytes
  print show (string s) end = quoted s end
  print show (natural n) end = show n ++ end
  print show (strings ss) end = b'[' ∷ listed ss (b']' ∷ end)
  print show (members ms) end = b'{' ∷ print_members show ms (b'}' ∷ end)

  pub print_members : (ℕ → Bytes) → Members → Bytes → Bytes
  print_members show no_members end = end
  print_members show (with_member key d no_members) end = quoted key (b':' ∷ print show d end)
  print_members show (with_member key d (with_member key' d' ms)) end =
      quoted key (b':' ∷ print show d (b',' ∷ print_members show (with_member key' d' ms) end))

-- the header of a passport of the kind "shaken", and the claims of a request
abbrev pub header_document : Document
header_document = members (
    with_member (codes "alg") (string (codes "ES256")) (
      with_member (codes "ppt") (string (codes "shaken")) (
        with_member (codes "typ") (string (codes "passport"))
          (with_member (codes "x5u") (string x5u_text) no_members))))

abbrev tn : Document → Document
tn d = members (with_member (codes "tn") d no_members)

abbrev pub payload_document : SigningRequest → Document
payload_document req = members (
    with_member (codes "attest") (string req.attest) (
      with_member (codes "dest") (tn (strings (sort req.dest))) (
        with_member (codes "iat") (natural req.iat) (
          with_member (codes "orig") (tn (string req.orig))
            (with_member (codes "origid") (string req.origid) no_members)))))

pub header_text-print : (show : ℕ → Bytes) → header_text ≡ print show header_document []
unfolding header_text print
header_text-print show = refl

listed-join :
    (s : Bytes) (ss : List Bytes) (end : Bytes)
    → listed (s ∷ ss) end ≡ b'"' ∷ (join (codes "\",\"") (s ∷ ss) ++ b'"' ∷ end)
unfolding join
listed-join s [] end = refl
listed-join s (t ∷ ss) end =
    ap (λ x. quoted s (b',' ∷ x)) (listed-join t ss end)
    ∙ ap (λ x. b'"' ∷ x)
        (sym (append_assoc s (codes "\",\"" ++ join (codes "\",\"") (t ∷ ss)) (b'"' ∷ end)))

listed_some :
    (ss : List Bytes)
    → is_empty ss ≡ false
    → (end : Bytes) → listed ss end ≡ b'"' ∷ (join (codes "\",\"") ss ++ b'"' ∷ end)
listed_some [] full end = absurd (cc)
listed_some (s ∷ ss) full end = listed-join s ss end

is_empty-insert_text : (s : Bytes) (ts : List Bytes) → is_empty (insert_text s ts) ≡ false
unfolding insert_text
is_empty-insert_text s [] = refl
is_empty-insert_text s (t ∷ ts) = ground arith

is_empty-sort : (ss : List Bytes) → is_empty ss ≡ false → is_empty (sort ss) ≡ false
unfolding sort
is_empty-sort [] full = full
is_empty-sort (s ∷ ss) full = is_empty-insert_text s (sort ss)

pub payload_text-print :
    (show : ℕ → Bytes) (req : SigningRequest)
    → is_empty req.dest ≡ false
    → payload_text show req ≡ print show (payload_document req) []
unfolding payload_text print
payload_text-print show req full =
    rw (listed_some (sort req.dest) (is_empty-sort req.dest full)) refl

-- the first member of this name
abbrev pub first_member : {A : Type 0} → Bytes → List (Bytes × A) → Option A
first_member key [] = none
first_member key (m ∷ ms) = if same_text key m.0 then some m.1 else first_member key ms

-- no two members have the same name
abbrev pub distinct : {A : Type 0} → List (Bytes × A) → Bool
distinct [] = true
distinct (m ∷ ms) = if is_some (first_member m.0 ms) then false else distinct ms

module _ (J : Json) where
  unfoldable mutual
    pub to_dynamic : Document → J.Dynamic
    to_dynamic (string s) = J.text s
    to_dynamic (natural n) = J.number n
    to_dynamic (strings ss) = J.array (map J.text ss)
    to_dynamic (members ms) = J.object (to_members ms)

    pub to_members : Members → List (Bytes × J.Dynamic)
    to_members no_members = []
    to_members (with_member key d ms) = (key, to_dynamic d) ∷ to_members ms

  -- how `folly::dynamic` finds members, compares texts and gives numbers that fit in an int64
  pub record Finds (range_array : List Bytes → J.Dynamic) : Type 0 where
    pub is_object-object : (ms : List (Bytes × J.Dynamic)) → J.is_object (J.object ms) ≡ true
    pub member-object :
        (key : Bytes) (ms : List (Bytes × J.Dynamic)) (v : J.Dynamic)
        → distinct ms ≡ true
        → first_member key ms ≡ some v
        → (J.get_ptr key (J.object ms) ≡ some v) × (J.index key (J.object ms) ≡ value v)
    pub as_natural-number : (n : ℕ) → n < 2 ^ 63 → J.as_natural (J.number n) ≡ some n
    pub same-text : (s : Bytes) → J.same (J.text s) (J.text s) ≡ true
    pub same-texts : (ss : List Bytes) → J.same (J.array (map J.text ss)) (range_array ss) ≡ true

  -- the parser reads the compact JSON of a document as the document
  abbrev pub Parses : (ℕ → Bytes) → Document → Type 0
  Parses show d = J.parse_json (print show d []) ≡ parsed (to_dynamic d)
