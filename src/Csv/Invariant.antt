-- ===== src/Csv/Invariant.antt =====
-- What every accepted line keeps, a load keeps, whatever the stream holds.
use lnr_high_performance.Base.{
  no_fuel_done, done_inj, ℕ, zero, suc, ◌+◌, ◌≡◌, sym, subst, false, some, [], ◌∷◌, Bytes, Result,
  ok, err, done, Result-cases, Option-cases, Bool-cases, inl, inr,
}
use lnr_high_performance.Csv.{Stream, getline, Loaded, from_csv, load_rows}

module _ {D : Type 0} (step : Bytes → D → Result D) (P : D → Type 0)
    (keeps : (line : Bytes) (d d' : D) → step line d ≡ ok d' → P d → P d') where
  -- the content of the loaded data, where a line has been read
  taken :
      (rounds line : ℕ) (text : Bytes) (s : Stream) (d : D)
      → ((d' : D) → P d' → P (from_csv step rounds s (line + 1) d').content)
      → P d
      → P
          (elim (step text d) as (λ r. Loaded D) [
            | err e ↦ record { content = d; stream = s; line = line; thrown = some e }
            | ok d' ↦ from_csv step rounds s (line + 1) d'
          ]).content
  taken rounds line text s d later p = elim (Result-cases (step text d)) [
    | inl (d', e) ↦ rw e (later d' (keeps text d d' e p))
    | inr (x, e) ↦ rw e p
  ]

  round :
      (rounds line : ℕ) (bytes : Bytes) (d : D)
      → ((s : Stream) (d' : D) → P d' → P (from_csv step rounds s (line + 1) d').content)
      → P d
      → P (from_csv step (suc rounds) (record { bytes = bytes; eof = false }) line d).content
  unfolding from_csv
  round rounds line [] d later p = p
  round rounds line (c ∷ cs) d later p =
      taken rounds line (getline (c ∷ cs)).0 (getline (c ∷ cs)).1 d (later (getline (c ∷ cs)).1) p

  pub from_csv-keeps :
      (rounds : ℕ) (s : Stream) (line : ℕ) (d : D) → P d → P (from_csv step rounds s line d).content
  unfolding from_csv
  from_csv-keeps zero s line d p = p
  from_csv-keeps (suc rounds) s line d p = elim (Bool-cases s.eof) [
    | inl e ↦ rw (from_csv, e) p
    | inr e ↦
        subst
          (λ b. P (from_csv step (suc rounds) (record { bytes = s.bytes; eof = b }) line d).content)
          (sym e) (round rounds line s.bytes d (λ s' d'. from_csv-keeps rounds s' (line + 1) d') p)
  ]

  -- Whatever a load ends with, its content has what every accepted line keeps.
  pub load_rows-keeps :
      (limit fuel : ℕ) (s : Stream) (line : ℕ) (d : D) {l : Loaded D}
      → load_rows step limit fuel s line d ≡ done l
      → P d
      → P l.content
  unfolding load_rows
  load_rows-keeps limit zero s line d run p = absurd (no_fuel_done run)
  load_rows-keeps limit (suc fuel) s line d {l} run p =
      let l' = from_csv step limit s line d in
      let kept = from_csv-keeps limit s line d p in
      elim (Bool-cases s.eof) [
        | inl e ↦
            let same = done_inj (rw (load_rows, e) at run) in
            subst (λ (x : Loaded D). P x.content) same p
        | inr e ↦ elim (Option-cases l'.thrown) [
          | inr (x, t) ↦
              let same : l' ≡ l = done_inj (rw (load_rows, e, t) at run) in
              subst (λ (x : Loaded D). P x.content) same kept
          | inl t ↦
              load_rows-keeps limit fuel l'.stream l'.line l'.content (rw (load_rows, e, t) at run)
                kept
        ]
      ]
