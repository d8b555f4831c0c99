-- ===== src/Tests/Dumps.antt =====
-- A database of two rows, dumped, verified and loaded again.
use lnr_high_performance.Base.{
  ℕ, ◌^◌, ◌<◌, ◌≤◌, ◌≡◌, refl, true, ◌&&◌, none, some, [], ◌∷◌, ◌++◌, Bytes, arith, ltb, ◌==◌,
  ne→==_false, if◌then◌else◌, length, ok, done,
}
use lnr_high_performance.Control.Dump.{dump_mapping_file}
use lnr_high_performance.Control.RoundTrip.{NoComma, dump_mapping_file-reload}
use lnr_high_performance.Control.Verify.{
  pair_of, first_two, differences, verify_mapping_file, verify_mapping_file-differences,
}
use lnr_high_performance.Csv.Lines.{text_of, at}
use lnr_high_performance.Csv.{Loaded, load_rows}
use lnr_high_performance.PhoneMapping.Builder.{Holds}
use lnr_high_performance.PhoneMapping.Lines.{to_numbers, read_line}
use lnr_high_performance.PhoneMapping.{Data, new_data, build}
use lnr_high_performance.Tests.Concrete.{plain, to_uint64, to_uint64-lt, split}
use lnr_high_performance.Tests.Web.{F, us, us-Holds}
use lnr_high_performance.Text.{codes}
use lnr_high_performance.Vendor.{FollyText}
use native.Mathlib.Nat.{pow-le-pow_right}

-- `folly::to` lets white space stand behind a number
abbrev chop : Bytes → Bytes
chop [] = []
chop (c ∷ []) = if c == b'\r' then [] else c ∷ []
chop (c ∷ d ∷ s) = c ∷ chop (d ∷ s)

length-chop : (s : Bytes) → length (chop s) ≤ length s
length-chop [] = omega arith
length-chop (c ∷ []) = ground arith
length-chop (c ∷ d ∷ s) = omega (arith, length-chop (d ∷ s))

chop-lt : (s : Bytes) (n : ℕ) → to_uint64 (chop s) ≡ some n → n < 10 ^ length s
chop-lt s n h =
    let grows : 10 ^ length (chop s) ≤ 10 ^ length s =
      pow-le-pow_right (omega arith) (length-chop s) in
    omega (arith, to_uint64-lt (chop s) n h)

abbrev lenient : FollyText
lenient = record plain { try_to_uint64 = λ s. to_uint64 (chop s); try_to_uint64-lt = chop-lt }

split-solid : (b : Bytes) → NoComma b → split b',' b ≡ b ∷ []
split-solid [] h = refl
split-solid (c ∷ b) h = rw (ne→==_false c b',' h.0, split-solid b h.1)

split-pair : (a b : Bytes) → NoComma a → NoComma b → split b',' (a ++ b',' ∷ b) ≡ a ∷ b ∷ []
split-pair [] b h k = rw (split-solid b k)
split-pair (c ∷ a) b h k = rw (ne→==_false c b',' h.0, split-pair a b h.1 k)

-- the decimal texts of the numbers in the sample
abbrev decimal : ℕ → Bytes
decimal n = if n == 2125550123 then codes "2125550123" else codes "2125559999"

dump_mapping_file-reload_example :
    (text : Bytes) × (l : Loaded (Data F)) × (dump_mapping_file F 16 decimal 9 (some (build F us))
      ≡ done text)
    × (verify_mapping_file lenient F 16 9 (some (build F us)) (at text) ≡ done true)
    × (load_rows (read_line lenient F) 10000 9 (at text) 0 (new_data F) ≡ done l)
    × (l.thrown ≡ none)
    × Holds F ((2125550123, 2125559999) ∷ []) l.content
dump_mapping_file-reload_example =
    dump_mapping_file-reload lenient decimal split-pair F 16 9999 9 us-Holds (omega arith)
      (
        (
          record { digits = ground arith; reads = refl; reads_blank = refl },
          record { digits = ground arith; reads = refl; reads_blank = refl },
        ),
        tt,
      )
      (omega arith) (omega arith)

program : Unit {0}
unfolding pair_of to_numbers first_two
program = tt

line_read : pair_of plain (codes "2125550123,2125559999") ≡ ok (2125550123, 2125559999)
unfolding program
line_read = refl

other_read : pair_of plain (codes "2125550124,1") ≡ ok (2125550124, 1)
unfolding program
other_read = refl

-- one line of two differs, and the file has a row more than the database
verify_mapping_file-differences_example :
    verify_mapping_file plain F 16 9
      (some (build F us))
      (at (text_of (codes "2125550123,2125559999" ∷ codes "2125550124,1" ∷ []) []))
    ≡ done (
        ltb
          (differences
            ((2125550123, 2125559999) ∷ [])
            ((2125550123, 2125559999) ∷ (2125550124, 1) ∷ []))
          100
        && (2 == 1))
verify_mapping_file-differences_example =
    verify_mapping_file-differences plain F 16 (omega arith) us-Holds 9
      (codes "2125550123,2125559999" ∷ codes "2125550124,1" ∷ [])
      ((2125550123, 2125559999) ∷ (2125550124, 1) ∷ []) (omega arith) (line_read, (other_read, tt))
      (omega arith)
