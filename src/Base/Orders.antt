-- ===== src/Base/Orders.antt =====
-- The order of texts, as the program sorts them.
use mathlib.Core.Path.{◌≡◌, refl, ◌∙◌}
use mathlib.Core.Bool.{Bool, true, false, ◌&&◌, ◌||◌}
use mathlib.Core.List.{List, [], ◌∷◌, Permᴰ}
use mathlib.Core.Logic.{inl, inr}
use native.Mathlib.Omega.{arith}
use sentia_linux.Base.Tests.{◌==◌, ltb, if◌then◌else◌, Bool-cases}
use sentia_linux.Base.Keys.{Text, text_beq}

-- The order of texts, byte by byte.
abbrev pub text_leb : Text → Text → Bool
text_leb [] t = true
text_leb (c ∷ s) [] = false
text_leb (c ∷ s) (d ∷ t) = ltb c d || (c == d && text_leb s t)

pub text_leb_total : (s t : Text) → text_leb s t ≡ false → text_leb t s ≡ true
text_leb_total [] t h = ground arith
text_leb_total (c ∷ s) [] h = refl
text_leb_total (c ∷ s) (d ∷ t) h = ground (arith, text_leb_total s t)

pub text_leb_trans :
    (s t u : Text) → text_leb s t ≡ true → text_leb t u ≡ true → text_leb s u ≡ true
text_leb_trans [] t u h k = refl
text_leb_trans (c ∷ s) [] u h k = ground arith
text_leb_trans (c ∷ s) (d ∷ t) [] h k = ground arith
text_leb_trans (c ∷ s) (d ∷ t) (a ∷ u) h k = ground (arith, text_leb_trans s t u)

abbrev pub insert_text : Text → List Text → List Text
insert_text s [] = s ∷ []
insert_text s (t ∷ ts) = if text_leb s t then s ∷ t ∷ ts else t ∷ insert_text s ts

-- `Vec<String>::sort`
abbrev pub sort_texts : List Text → List Text
sort_texts [] = []
sort_texts (s ∷ ts) = insert_text s (sort_texts ts)

-- `Vec::dedup`
abbrev pub dedup : List Text → List Text
dedup [] = []
dedup (s ∷ []) = s ∷ []
dedup (s ∷ t ∷ ts) = let rest = dedup (t ∷ ts) in if text_beq s t then rest else s ∷ rest

text_leb_antisymm : (s t : Text) → text_leb s t ≡ true → text_leb t s ≡ true → s ≡ t
text_leb_antisymm [] [] h k = refl
text_leb_antisymm [] (d ∷ t) h k = absurd (ground arith)
text_leb_antisymm (c ∷ s) [] h k = absurd (ground arith)
text_leb_antisymm (c ∷ s) (d ∷ t) h k = ground (arith, text_leb_antisymm s t)

-- The order in which texts are inserted does not matter.
pub insert_text_comm :
    (s t : Text) (us : List Text)
    → insert_text s (insert_text t us) ≡ insert_text t (insert_text s us)
insert_text_comm s t [] = ground (arith, text_leb_total s t, text_leb_antisymm s t)
insert_text_comm s t (u ∷ us) = ground (
  arith,
  text_leb_total s t,
  text_leb_total s u,
  text_leb_total t u,
  text_leb_antisymm s t,
  text_leb_trans s t u,
  text_leb_trans t s u,
  text_leb_trans s u t,
  text_leb_trans t u s,
  insert_text_comm s t us,
)

-- Permuted lists are sorted alike.
pub sort_texts-perm : {ss ts : List Text} → Permᴰ ss ts → sort_texts ss ≡ sort_texts ts
sort_texts-perm Permᴰ.nil = refl
sort_texts-perm (Permᴰ.cons e p) = cc (sort_texts-perm p, e)
sort_texts-perm (Permᴰ.swap {a} {b} {a'} {b'} {l} e f) =
    insert_text_comm a b (sort_texts l) ∙ cc (e, f)
sort_texts-perm (Permᴰ.trans p q) = sort_texts-perm p ∙ sort_texts-perm q

insert_text-perm : (s : Text) (ts : List Text) → Permᴰ (insert_text s ts) (s ∷ ts)
insert_text-perm s [] = Permᴰ.cons refl Permᴰ.nil
insert_text-perm s (t ∷ ts) = elim (Bool-cases (text_leb s t)) [
  | inl first ↦ rw first (same (s ∷ t ∷ ts))
  | inr later ↦
      rw later (Permᴰ.trans (Permᴰ.cons refl (insert_text-perm s ts)) (Permᴰ.swap refl refl))
]
  where
    same : (us : List Text) → Permᴰ us us
    same [] = Permᴰ.nil
    same (u ∷ us) = Permᴰ.cons refl (same us)

-- A sorted list is a permutation of the list, and is left alone by another sort.
pub sort_texts-perm_self : (ts : List Text) → Permᴰ (sort_texts ts) ts
sort_texts-perm_self [] = Permᴰ.nil
sort_texts-perm_self (t ∷ ts) =
    Permᴰ.trans (insert_text-perm t (sort_texts ts)) (Permᴰ.cons refl (sort_texts-perm_self ts))

pub sort_texts_idem : (ts : List Text) → sort_texts (sort_texts ts) ≡ sort_texts ts
sort_texts_idem ts = sort_texts-perm (sort_texts-perm_self ts)
