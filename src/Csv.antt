-- ===== src/Csv.antt =====
-- The loop of every `fromCSV` (callfwd/PhoneMapping.cpp and its siblings) over an input stream,
-- and the loop of every loader in callfwd/Control.cpp around it. What one line does to the builder
-- is the argument `step`.
pub mod Invariant
pub mod Lines
pub mod Load
use lnr_high_performance.Base.{
  ℕ, zero, suc, ◌+◌, Bool, true, false, Option, none, some, List, [], ◌∷◌, ◌==◌, Bytes, Error,
  stream_failure, Result, ok, err, Run, done, no_fuel, ◌>>=◌, is_some,
}

-- A stream that throws on `failbit`, as the loaders open it: the bytes not read yet, and `eofbit`.
pub record Stream : Type 0 where
  pub bytes : Bytes
  pub eof : Bool

-- `std::getline`: the line, and the stream behind it; `eofbit` is set where no newline was found
unfoldable pub getline : Bytes → Bytes × Stream
getline [] = ([], record { bytes = []; eof = true })
getline (c ∷ cs) = elim (c == b'\n') [
  | true ↦ ([], record { bytes = cs; eof = false })
  | false ↦ let (line, s) = getline cs in (c ∷ line, s)
]

-- the builder, the stream and the line counter when `fromCSV` returns or throws
pub record Loaded (D : Type 0) : Type 0 where
  pub content : D
  pub stream : Stream
  pub line : ℕ
  pub thrown : Option Error

module _ {D : Type 0} (step : Bytes → D → Result D) where
  -- `for (limit += line; line < limit; ++line)`: the first argument counts the rounds left.
  -- `peek` on a stream that is at its end already sets `failbit`, which throws.
  unfoldable pub from_csv : ℕ → Stream → ℕ → D → Loaded D
  from_csv zero s line d = record { content = d; stream = s; line = line; thrown = none }
  from_csv (suc rounds) s line d = elim s.eof [
    | true ↦ record { content = d; stream = s; line = line; thrown = some stream_failure }
    | false ↦ elim s.bytes [
      | [] ↦ record {
        content = d;
        stream = record { bytes = []; eof = true };
        line = line;
        thrown = none;
      }
      | c ∷ cs ↦
          let (text, s') = getline (c ∷ cs) in
          elim (step text d) [
            | err e ↦ record { content = d; stream = s'; line = line; thrown = some e }
            | ok d' ↦ from_csv rounds s' (line + 1) d'
          ]
    ]
  ]

  -- `while (in.good()) builder.fromCSV(in, nrows, 10000)`, left by an exception
  unfoldable pub load_rows : ℕ → ℕ → Stream → ℕ → D → Run (Loaded D)
  load_rows limit zero s line d = no_fuel
  load_rows limit (suc fuel) s line d = elim s.eof [
    | true ↦ done (record { content = d; stream = s; line = line; thrown = none })
    | false ↦
        let l = from_csv limit s line d in
        elim l.thrown [ some e ↦ done l | none ↦ load_rows limit fuel l.stream l.line l.content ]
  ]
