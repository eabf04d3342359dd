-- ===== src/Router/Redaction/Tokens.antt =====
-- Splitting a text at white space, and the tokens that result (privacy.rs, redact_secrets).
use sentia_linux.Base.{
  ℕ, ◌≡◌, refl, ap, ◌⊎◌, inl, inr, true, false, not, List, [], ◌∷◌, ◌++◌, Text, arith, length, drop,
  Bool-cases, all,
}
use sentia_linux.Router.Redaction.{is_space, split_inclusive, trim_end, onto_first}

-- A text without white space.
abbrev pub IsWord : Text → Type 0
IsWord w = all (λ c. not (is_space c)) w ≡ true

-- A word and the white space that ends it.
abbrev pub IsClosed : Text → Type 0
IsClosed t = (w : Text) × (s : ℕ) × IsWord w × is_space s ≡ true × t ≡ w ++ s ∷ []

abbrev pub IsOpen : Text → Type 0
IsOpen t = IsWord t × (c : ℕ) × (v : Text) × t ≡ c ∷ v

-- Only the last token may end without white space.
abbrev pub IsTokens : List Text → Type 0
IsTokens [] = Unit
IsTokens (t ∷ []) = IsClosed t ⊎ IsOpen t
IsTokens (t ∷ u ∷ ts) = IsClosed t × IsTokens (u ∷ ts)

pub split-closed :
    (w : Text) (s : ℕ) (rest : Text)
    → IsWord w
    → is_space s ≡ true
    → split_inclusive (w ++ s ∷ rest) ≡ (w ++ s ∷ []) ∷ split_inclusive rest
unfolding split_inclusive
split-closed [] s rest h k = ground arith
split-closed (c ∷ w) s rest h k = ground (arith, split-closed w s rest)

pub split-open : (c : ℕ) (v : Text) → IsWord (c ∷ v) → split_inclusive (c ∷ v) ≡ (c ∷ v) ∷ []
unfolding split_inclusive
split-open c [] h = ground arith
split-open c (d ∷ v) h = ground (arith, split-open d v)

pub trim_end-closed : (w : Text) (s : ℕ) → IsWord w → is_space s ≡ true → trim_end (w ++ s ∷ []) ≡ w
unfolding trim_end
trim_end-closed [] s h k = ground arith
trim_end-closed (c ∷ []) s h k = ground (arith, trim_end-closed [] s)
trim_end-closed (c ∷ d ∷ w) s h k = ground (arith, trim_end-closed (d ∷ w) s)

pub trim_end-word : (w : Text) → IsWord w → trim_end w ≡ w
unfolding trim_end
trim_end-word [] h = refl
trim_end-word (c ∷ []) h = ground arith
trim_end-word (c ∷ d ∷ w) h = ground (arith, trim_end-word (d ∷ w))

pub drop-append_length : (w x : Text) → drop (length w) (w ++ x) ≡ x
drop-append_length [] x = refl
drop-append_length (c ∷ w) x = drop-append_length w x

onto_first-IsTokens :
    (c : ℕ) (ts : List Text) → is_space c ≡ false → IsTokens ts → IsTokens (onto_first c ts)
onto_first-IsTokens c [] h k = inr (ground arith, c, [], refl)
onto_first-IsTokens c (t ∷ []) h (inl (w, s, hw, hs, e)) =
    inl (c ∷ w, s, ground arith, hs, ap (λ u. c ∷ u) e)
onto_first-IsTokens c (t ∷ []) h (inr (hw, _, _, _)) = inr (ground arith, c, t, refl)
onto_first-IsTokens c (t ∷ u ∷ ts) h ((w, s, hw, hs, e), k) =
    ((c ∷ w, s, ground arith, hs, ap (λ u. c ∷ u) e), k)

space-IsTokens :
    (c : ℕ) (ts : List Text) → is_space c ≡ true → IsTokens ts → IsTokens ((c ∷ []) ∷ ts)
space-IsTokens c [] h k = inl ([], c, refl, h, refl)
space-IsTokens c (t ∷ ts) h k = (([], c, refl, h, refl), k)

pub split_inclusive-IsTokens : (s : Text) → IsTokens (split_inclusive s)
unfolding split_inclusive
split_inclusive-IsTokens [] = tt
split_inclusive-IsTokens (c ∷ s) = elim (Bool-cases (is_space c)) [
  | inl space ↦ rw space (space-IsTokens c (split_inclusive s) space (split_inclusive-IsTokens s))
  | inr other ↦
      rw other (onto_first-IsTokens c (split_inclusive s) other (split_inclusive-IsTokens s))
]
