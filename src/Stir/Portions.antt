-- ===== src/Stir/Portions.antt =====
-- What `verifyPassport` of stir/Passport.cpp reads back from the text that `makePassport` writes.
use lnr_high_performance.Base.{
  ℕ, arith, ◌≡◌, ◌≢◌, refl, Bool, true, false, not, [], ◌∷◌, ◌++◌, ◌==◌, All, All-append, All-mono,
  Bool-cases, inl, inr, Bytes,
}
use lnr_high_performance.Stir.Passport.{InPortion, x5u_text}
use lnr_high_performance.Stir.Pieces.{Pieces, Without}
use lnr_high_performance.Stir.Types.{all_of}
use lnr_high_performance.Stir.Identity.{portions, read_info}
use lnr_high_performance.Text.{codes, same_text}
use lnr_high_performance.Vendor.{is_blank}
use mathlib.Core.List.{append_assoc}

false-true : ¬ (false ≡ true)
false-true h = cc

All-of_all_of : (p : ℕ → Bool) (s : Bytes) → all_of p s ≡ true → All (λ c. p c ≡ true) s
unfolding all_of
All-of_all_of p [] h = tt
All-of_all_of p (c ∷ s) h = elim (Bool-cases (p c)) [
  | inl t ↦ (t, All-of_all_of p s (rw t at h))
  | inr f ↦ absurd (false-true (rw f at h))
]

not_blank : (c : ℕ) → not (is_blank c) ≡ true → is_blank c ≡ false
not_blank c h = ground arith

not_equal : (sep c : ℕ) → not (c == sep) ≡ true → c ≢ sep
not_equal sep c h = ground arith

-- a text written in the program, which a run of the test decides
Without-of_test : (sep : ℕ) (s : Bytes) → all_of (λ c. not (c == sep)) s ≡ true → Without sep s
Without-of_test sep s h = All-mono _ _ s (not_equal sep) (All-of_all_of _ s h)

solid-of_test :
    (s : Bytes) → all_of (λ c. not (is_blank c)) s ≡ true → All (λ c. is_blank c ≡ false) s
solid-of_test s h = All-mono _ _ s not_blank (All-of_all_of _ s h)

abbrev Solid : Bytes → Type 0
Solid = All (λ c. is_blank c ≡ false)

joined :
    (header payload signature behind : Bytes)
    → (header ++ b'.' ∷ payload) ++ b'.' ∷ (signature ++ b';' ∷ behind)
      ≡ (header ++ b'.' ∷ (payload ++ b'.' ∷ signature)) ++ b';' ∷ behind
joined header payload signature behind =
    rw
      (
        append_assoc header (b'.' ∷ payload) (b'.' ∷ (signature ++ b';' ∷ behind)),
        append_assoc header (b'.' ∷ (payload ++ b'.' ∷ signature)) (b';' ∷ behind),
        append_assoc payload (b'.' ∷ signature) (b';' ∷ behind),
      )
      refl

-- what each portion has, their joint has where a dot does
joint-All :
    (Q : ℕ → Type 0) (header payload signature : Bytes)
    → Q b'.'
    → All Q header
    → All Q payload
    → All Q signature
    → All Q (header ++ b'.' ∷ (payload ++ b'.' ∷ signature))
joint-All Q header payload signature dot h p s =
    All-append Q header _ h (dot, All-append Q payload _ p (dot, s))

dot_semicolon : ◌≢◌ {A = ℕ} b'.' b';'
dot_semicolon = not_equal b';' b'.' refl

module _ (P : Pieces) (is_uri : Bytes → Bool) where
  -- three portions and what is behind them
  pub portions_lem :
      (header payload signature behind : Bytes)
      → All InPortion header
      → All InPortion payload
      → All InPortion signature
      → portions P is_uri ((header ++ b'.' ∷ payload) ++ b'.' ∷ (signature ++ b';' ∷ behind))
        ≡ (header, payload, signature, behind)
  unfolding portions
  portions_lem header payload signature behind h p s =
      let dots =
        λ (t : Bytes) (k : All InPortion t). All-mono InPortion (λ c. c ≢ b'.') t (λ c x. x.1) k in
      let ends =
        λ (t : Bytes) (k : All InPortion t). All-mono InPortion (λ c. c ≢ b';') t (λ c x. x.2) k in
      let blanks = λ (t : Bytes) (k : All InPortion t).
        All-mono InPortion (λ c. is_blank c ≡ false) t (λ c x. x.0) k in
      let digest = header ++ b'.' ∷ (payload ++ b'.' ∷ signature) in
      let whole =
        joint-All _ header payload signature dot_semicolon (ends header h) (ends payload p)
          (ends signature s) in
      let solid =
        joint-All _ header payload signature refl (blanks header h) (blanks payload p)
          (blanks signature s) in
      rw
        (
          joined header payload signature behind,
          P.split_step-found b';' digest behind whole,
          P.trim-solid digest solid,
          P.split_step-found b'.' header (payload ++ b'.' ∷ signature) (dots header h),
          P.split_step-found b'.' payload signature (dots payload p),
        )
        refl

  -- the `info` parameter
  pub read_info_lem :
      read_info P is_uri (P.ltrim (codes "info=<" ++ (x5u_text ++ codes ">"))) ≡ (x5u_text, [])
  unfolding read_info same_text all_of
  read_info_lem =
      rw
        (
          P.ltrim-solid b'i' (codes "nfo=<" ++ (x5u_text ++ codes ">")) refl,
          P.split_step-found b'=' (codes "info") (codes "<" ++ (x5u_text ++ codes ">"))
              (Without-of_test b'=' (codes "info") refl),
          P.ltrim-solid b'<' (x5u_text ++ codes ">") refl,
          P.split_step-found b'>' x5u_text [] (Without-of_test b'>' x5u_text refl),
          P.trim-solid x5u_text (solid-of_test x5u_text refl),
        )
        refl
