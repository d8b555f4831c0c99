-- ===== src/Tests/Documents.antt =====
-- JSON documents, text pieces, an encoding and a signature that make the parameters of the STIR
-- server concrete.
use lnr_high_performance.Base.{
  ◌≡◌, ap, ◌∙◌, ℕ, zero, suc, ◌+◌, ◌%◌, ◌/◌, refl, Bool, true, false, ◌&&◌, Option, none, some,
  List, [], ◌∷◌, ◌++◌, map, ◌==◌, ltb, if◌then◌else◌, Bytes,
}
use lnr_high_performance.Stir.Documents.{Finds, first_member}
use lnr_high_performance.Stir.Json.{
  Json, Thrown, missing_key, type_error, Caught, value, thrown, Parsed, parsed, parse_error,
}
use lnr_high_performance.Text.Laws.{same_text_self}
use lnr_high_performance.Text.{codes, same_text}

mutual
  pub data Value : Type 0 where
    nothing : Value
    text : Bytes → Value
    number : ℕ → Value
    array : Values → Value
    object : Members → Value

  pub data Values : Type 0 where
    no_values : Values
    one_more : Value → Values → Values

  pub data Members : Type 0 where
    no_members : Members
    with_member : Bytes → Value → Members → Members

abbrev values_of : List Value → Values
values_of [] = no_values
values_of (v ∷ vs) = one_more v (values_of vs)

abbrev pub members_of : List (Bytes × Value) → Members
members_of [] = no_members
members_of ((key, v) ∷ ms) = with_member key v (members_of ms)

unfoldable mutual
  pub same : Value → Value → Bool
  same nothing nothing = true
  same (text s) (text t) = same_text s t
  same (number m) (number n) = m == n
  same (array vs) (array ws) = same_values vs ws
  same (object ms) (object ns) = same_members ms ns
  same v w = false

  pub same_values : Values → Values → Bool
  same_values no_values no_values = true
  same_values (one_more v vs) (one_more w ws) = same v w && same_values vs ws
  same_values vs ws = false

  pub same_members : Members → Members → Bool
  same_members no_members no_members = true
  same_members (with_member k v ms) (with_member l w ns) =
      same_text k l && (same v w && same_members ms ns)
  same_members ms ns = false

unfoldable pub find : Bytes → Members → Option Value
find key no_members = none
find key (with_member k v ms) = if same_text key k then some v else find key ms

unfoldable pub get_ptr : Bytes → Value → Option Value
get_ptr key (object ms) = find key ms
get_ptr key v = none

abbrev or_throw : Thrown → Option Value → Caught Value
or_throw t none = thrown t
or_throw t (some v) = value v

abbrev get : Bytes → Value → Caught Value
get key (object ms) = or_throw missing_key (find key ms)
get key v = thrown (type_error (codes "not an object"))

-- a member that is missing is made null
abbrev or_nothing : Option Value → Caught Value
or_nothing none = value nothing
or_nothing (some v) = value v

abbrev index : Bytes → Value → Caught Value
index key (object ms) = or_nothing (find key ms)
index key v = thrown (type_error (codes "not an object"))

abbrev to_text : Value → Caught Bytes
to_text (text s) = value s
to_text v = thrown (type_error (codes "not a string"))

abbrev to_number : Value → Caught ℕ
to_number (number n) = value n
to_number v = thrown (type_error (codes "not a number"))

abbrev and_text : Caught Bytes → Caught (List Bytes) → Caught (List Bytes)
and_text (value s) (value ss) = value (s ∷ ss)
and_text (value s) (thrown t) = thrown t
and_text (thrown t) ss = thrown t

abbrev texts_of : Values → Caught (List Bytes)
texts_of no_values = value []
texts_of (one_more v vs) = and_text (to_text v) (texts_of vs)

abbrev to_texts : Value → Caught (List Bytes)
to_texts (array vs) = texts_of vs
to_texts v = thrown (type_error (codes "not an array"))

-- the digits of a number, the last ones first where there are more than `fuel`
abbrev digits : ℕ → ℕ → Bytes
digits zero n = []
digits (suc fuel) n =
    let more = digits fuel (n / 10) in
    if ltb n 10 then (b'0' + n) ∷ [] else more ++ (b'0' + n % 10) ∷ []

abbrev pub show : ℕ → Bytes
show n = digits 20 n

abbrev quoted : Bytes → Bytes
quoted s = codes "\"" ++ (s ++ codes "\"")

unfoldable mutual
  pub print : Value → Bytes
  print nothing = codes "null"
  print (text s) = quoted s
  print (number n) = show n
  print (array vs) = codes "[" ++ (print_values vs ++ codes "]")
  print (object ms) = codes "{" ++ (print_members ms ++ codes "}")

  pub print_values : Values → Bytes
  print_values no_values = []
  print_values (one_more v vs) = print v ++ (codes "," ++ print_values vs)

  pub print_members : Members → Bytes
  print_members no_members = []
  print_members (with_member k v ms) =
      quoted k ++ (codes ":" ++ (print v ++ (codes "," ++ print_members ms)))

abbrev is_object : Value → Bool
is_object (object ms) = true
is_object v = false

abbrev as_string : Value → Option Bytes
as_string (text s) = some s
as_string v = none

abbrev as_natural : Value → Option ℕ
as_natural (number n) = some n
as_natural v = none

-- the texts that are read are listed
abbrev read_from : List (Bytes × Value) → Bytes → Parsed Value
read_from [] s = parse_error
read_from ((t, v) ∷ known) s = if same_text t s then parsed v else read_from known s

abbrev pub documents : List (Bytes × Value) → Json
documents known = record {
  Dynamic = Value;
  parse_json = read_from known;
  to_json = print;
  get = get;
  index = index;
  get_ptr = get_ptr;
  is_object = is_object;
  as_string = as_string;
  as_natural = as_natural;
  to_text = to_text;
  to_number = to_number;
  to_texts = to_texts;
  text = text;
  number = number;
  array = λ vs. array (values_of vs);
  object = λ ms. object (members_of ms);
  same = same;
  as_string-text = λ s. refl;
}

abbrev pub text_array : List Bytes → Value
text_array ss = array (values_of (map text ss))

find-first_member :
    (key : Bytes) (ms : List (Bytes × Value)) → find key (members_of ms) ≡ first_member key ms
unfolding find
find-first_member key [] = refl
find-first_member key (m ∷ ms) = rw (find-first_member key ms) refl

same-values :
    (ss : List Bytes) → same_values (values_of (map text ss)) (values_of (map text ss)) ≡ true
unfolding same
same-values [] = refl
same-values (s ∷ ss) = rw (same_text_self s, same-values ss) refl

pub finds : (known : List (Bytes × Value)) → Finds (documents known) text_array
unfolding same get_ptr
finds known = record {
  is_object-object = λ ms. refl;
  member-object = λ key ms v apart h.
      (find-first_member key ms ∙ h, ap or_nothing (find-first_member key ms ∙ h));
  as_natural-number = λ n fits. refl;
  same-text = λ s. same_text_self s;
  same-texts = λ ss. same-values ss;
}
