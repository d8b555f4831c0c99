-- ===== src/Text.antt =====
-- The text functions that the readers of callfwd/*Mapping.cpp share: the standard library's number
-- readers, the split of a line at its commas, and `Builder::deleteCharacter`.
pub mod Laws
pub mod Columns
use lnr_high_performance.Base.{
  ℕ, ◌+◌, ◌-◌, ◌*◌, ◌%◌, ◌^◌, Bool, true, false, ◌&&◌, ◌||◌, none, some, List, [], ◌∷◌, Bytes, ltb,
  leb, ◌==◌, if◌then◌else◌, get_elem?, get_or, invalid_argument, out_of_range, out_of_bounds,
  Result, ok, err,
}
use Prim.Native.Char.{code}
use Prim.Native.String.{String}

-- the bytes of an ASCII text
abbrev pub codes : String → Bytes
codes String.[] = []
codes (String.◌∷◌ c s) = code c ∷ codes s

-- `==` of two texts
unfoldable pub same_text : Bytes → Bytes → Bool
same_text [] [] = true
same_text [] (d ∷ t) = false
same_text (c ∷ s) [] = false
same_text (c ∷ s) (d ∷ t) = (c == d) && same_text s t

abbrev pub is_digit : ℕ → Bool
is_digit c = leb b'0' c && leb c b'9'

-- `isspace`
abbrev pub is_space : ℕ → Bool
is_space c = c == b' ' || leb 9 c && leb c 13

unfoldable pub skip_spaces : Bytes → Bytes
skip_spaces [] = []
skip_spaces (c ∷ s) = if is_space c then skip_spaces s else c ∷ s

-- an optional sign, and the text behind it
unfoldable pub take_sign : Bytes → Bool × Bytes
take_sign [] = (false, [])
take_sign (c ∷ s) =
    if c == b'-' then (true, s) else if c == b'+' then (false, s) else (false, c ∷ s)

unfoldable pub starts_digit : Bytes → Bool
starts_digit s = is_digit (get_or s 0 0)

-- the digits that the text starts with, as a number
unfoldable pub scan_digits : ℕ → Bytes → ℕ
scan_digits acc [] = acc
scan_digits acc (c ∷ s) = if is_digit c then scan_digits (acc * 10 + (c - b'0')) s else acc

-- `uint64_t n = std::stoll(s)`
unfoldable pub stoll : Bytes → Result ℕ
stoll s =
    let (negative, t) = take_sign (skip_spaces s) in
    let n = scan_digits 0 t in
    if starts_digit t
    then (if (if negative then ltb (2 ^ 63) n else leb (2 ^ 63) n)
        then err out_of_range
        else ok (if negative then (2 ^ 64 - n) % 2 ^ 64 else n))
    else err invalid_argument

-- `iss >> n` for `uint64_t n` that holds `old`; a blank text leaves it as it is
unfoldable pub extract : ℕ → Bytes → ℕ
extract old s = elim (skip_spaces s) [
  | [] ↦ old
  | c ∷ cs ↦
      let (negative, t) = take_sign (c ∷ cs) in
      let n = scan_digits 0 t in
      if starts_digit t
      then (if leb (2 ^ 64) n then 2 ^ 64 - 1 else if negative then (2 ^ 64 - n) % 2 ^ 64 else n)
      else 0
]

-- `while (std::getline(ss, part, ',')) parts.push_back(part)`: an empty last piece is dropped
abbrev pub glue : ℕ → List Bytes → List Bytes
glue c [] = (c ∷ []) ∷ []
glue c (p ∷ ps) = (c ∷ p) ∷ ps

unfoldable pub split_line : Bytes → List Bytes
split_line [] = []
split_line (c ∷ s) = let rest = split_line s in if c == b',' then [] ∷ rest else glue c rest

-- `deleteCharacter(input, character)`
unfoldable pub delete_character : ℕ → Bytes → Bytes
delete_character character [] = []
delete_character character (c ∷ s) =
    let rest = delete_character character s in if c == character then rest else c ∷ rest

-- `rowbuf[i]`
unfoldable pub field : ℕ → List Bytes → Result Bytes
field i parts = elim (get_elem? parts i) [ none ↦ err out_of_bounds | some s ↦ ok s ]
