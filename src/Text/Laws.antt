-- ===== src/Text/Laws.antt =====
-- Two texts are the same where their bytes are.
use lnr_high_performance.Base.{
  ◌≡◌, ◌↔◌, refl, ap, ◌∙◌, true, [], ◌∷◌, Bytes, ◌==◌, ==_iff, ==_refl, Bool-cases, inl, inr,
}
use lnr_high_performance.Text.{same_text}

pub same_text_self : (s : Bytes) → same_text s s ≡ true
unfolding same_text
same_text_self [] = refl
same_text_self (c ∷ s) = rw (==_refl c) (same_text_self s)

pub same_text-eq : (s t : Bytes) → same_text s t ≡ true → s ≡ t
unfolding same_text
same_text-eq [] [] h = refl
same_text-eq [] (d ∷ t) h = cc
same_text-eq (c ∷ s) [] h = cc
same_text-eq (c ∷ s) (d ∷ t) h = elim (Bool-cases (c == d)) [
  | inr n ↦ cc (rw n at h)
  | inl e ↦ ap (λ x. x ∷ s) ((==_iff c d).0 e) ∙ ap (◌∷◌ d) (same_text-eq s t (rw e at h))
]

pub same_text_iff : (s t : Bytes) → (same_text s t ≡ true) ↔ (s ≡ t)
same_text_iff s t = (same_text-eq s t, λ e. rw e (same_text_self t))
