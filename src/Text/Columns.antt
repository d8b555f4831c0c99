-- ===== src/Text/Columns.antt =====
-- Lines by their columns: what the readers of callfwd/*Mapping.cpp split a line into.
use lnr_high_performance.Base.{
  ◌∙◌, sym, arith, length-append, ℕ, ◌≡◌, ◌≢◌, ◌⊎◌, inl, inr, refl, false, List, [], ◌∷◌, ◌++◌,
  ne→==_false, is_empty, All, Bytes, length, ◌-◌, get_or,
}
use lnr_high_performance.Text.{split_line}
use mathlib.Core.List.{append_assoc}

abbrev pub IsColumn : Bytes → Type 0
IsColumn = All (λ c. c ≢ b',')

-- columns with a comma between them
abbrev pub row : List Bytes → Bytes
row [] = []
row (c ∷ []) = c
row (c ∷ d ∷ cs) = c ++ b',' ∷ row (d ∷ cs)

-- columns with a comma behind each
abbrev pub closed : List Bytes → Bytes
closed [] = []
closed (c ∷ cs) = c ++ b',' ∷ closed cs

-- the last column is not empty
abbrev pub Ended : List Bytes → Type 0
Ended [] = Unit
Ended (c ∷ []) = is_empty c ≡ false
Ended (c ∷ d ∷ cs) = Ended (d ∷ cs)

-- A line of these columns, with or without a comma behind the last.
abbrev pub Written : List Bytes → Bytes → Type 0
Written cs line = All IsColumn cs × (((line ≡ row cs) × Ended cs) ⊎ (line ≡ closed cs))

split_line-column : (c s : Bytes) → IsColumn c → split_line (c ++ b',' ∷ s) ≡ c ∷ split_line s
unfolding split_line
split_line-column [] s h = refl
split_line-column (x ∷ c) s h = rw (ne→==_false x b',' h.0, split_line-column c s h.1) refl

split_line_last : (x : ℕ) (c : Bytes) → IsColumn (x ∷ c) → split_line (x ∷ c) ≡ (x ∷ c) ∷ []
unfolding split_line
split_line_last x [] h = rw (ne→==_false x b',' h.0) refl
split_line_last x (y ∷ c) h = rw (ne→==_false x b',' h.0, split_line_last y c h.1) refl

split_line-row : (cs : List Bytes) → All IsColumn cs → Ended cs → split_line (row cs) ≡ cs
unfolding split_line
split_line-row [] h e = refl
split_line-row ([] ∷ []) h e = absurd (cc)
split_line-row ((x ∷ c) ∷ []) h e = split_line_last x c h.0
split_line-row (c ∷ d ∷ cs) h e =
    rw (split_line-column c (row (d ∷ cs)) h.0, split_line-row (d ∷ cs) h.1 e) refl

split_line-closed : (cs : List Bytes) → All IsColumn cs → split_line (closed cs) ≡ cs
unfolding split_line
split_line-closed [] h = refl
split_line-closed (c ∷ cs) h =
    rw (split_line-column c (closed cs) h.0, split_line-closed cs h.1) refl

-- the columns of a line are the ones that it is written with
pub split_line-Written : (cs : List Bytes) (line : Bytes) → Written cs line → split_line line ≡ cs
split_line-Written cs line (h, inl (k, e)) = rw k (split_line-row cs h e)
split_line-Written cs line (h, inr k) = rw k (split_line-closed cs h)

pub get_or-Written :
    (c : ℕ) (s d : Bytes) (cs : List Bytes) (line : Bytes)
    → Written ((c ∷ s) ∷ d ∷ cs) line
    → get_or line 0 0 ≡ c
get_or-Written c s d cs line (h, inl (k, e)) = rw k refl
get_or-Written c s d cs line (h, inr k) = rw k refl

closed_end : (c : Bytes) (cs : List Bytes) → (t : Bytes) × (closed (c ∷ cs) ≡ t ++ b',' ∷ [])
closed_end c [] = (c, refl)
closed_end c (d ∷ cs) =
    let (t, k) = closed_end d cs in
    (c ++ b',' ∷ t, rw (closed, k) (sym (append_assoc c (b',' ∷ t) (b',' ∷ []))))

get_or_end : (t : Bytes) (x : ℕ) → get_or (t ++ x ∷ []) (length t) 0 ≡ x
get_or_end [] x = refl
get_or_end (c ∷ t) x = get_or_end t x

-- a line that is closed ends with a comma
pub get_or-closed :
    (c : Bytes) (cs : List Bytes) (line : Bytes)
    → line ≡ closed (c ∷ cs)
    → get_or line (length line - 1) 0 ≡ b','
get_or-closed c cs line k =
    let (t, e) = closed_end c cs in
    let whole : line ≡ t ++ b',' ∷ [] = k ∙ e in
    let last : length (t ++ b',' ∷ []) - 1 ≡ length t =
      omega (arith, length-append t (b',' ∷ [])) in
    rw (whole, last) (get_or_end t b',')
