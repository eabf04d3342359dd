-- ===== src/Tools/Validation/Paths.antt =====
-- The components of a path whose text is put together from segments (validation.rs).
use sentia_linux.Base.{
  ◌≡◌, refl, sym, ap, ◌∙◌, Option, none, some, List, [], ◌∷◌, ◌++◌, Text, append_assoc, append-nil,
  split_from, Bool-cases, inl, inr,
}
use sentia_linux.Tools.Validation.{
  Component, root_dir, normal, component, components_of, is_slash, first_component, components,
  last_name,
}

-- Each segment behind a slash.
abbrev pub render : List Text → Text
render [] = []
render (s ∷ segments) = b'/' ∷ (s ++ render segments)

pub render-append : (a b : List Text) → render (a ++ b) ≡ render a ++ render b
render-append [] b = refl
render-append (s ∷ a) b =
    ap (λ t. b'/' ∷ t)
      (ap (λ t. s ++ t) (render-append a b) ∙ sym (append_assoc s (render a) (render b)))

-- A slash ends a segment.
split_from-slash :
    (cur x y : Text)
    → split_from is_slash cur (x ++ b'/' ∷ y)
      ≡ split_from is_slash cur x ++ split_from is_slash [] y
unfolding split_from
split_from-slash cur [] y = refl
split_from-slash cur (c ∷ x) y = elim (Bool-cases (is_slash c)) [
  | inl hit ↦ rw (hit, split_from) (ap (λ t. cur ∷ t) (split_from-slash [] x y))
  | inr miss ↦ rw (miss, split_from) (split_from-slash (cur ++ c ∷ []) x y)
]

components_of-append :
    (a b : List Text) → components_of (a ++ b) ≡ components_of a ++ components_of b
components_of-append [] b = refl
components_of-append (s ∷ a) b =
    ap (λ t. component s ++ t) (components_of-append a b)
    ∙ sym (append_assoc (component s) (components_of a) (components_of b))

-- The components behind a slash.
abbrev pub behind : Text → List Component
behind x = components_of (split_from is_slash [] x)

pub behind-slash : (x y : Text) → behind (x ++ b'/' ∷ y) ≡ behind x ++ behind y
behind-slash x y =
    ap components_of (split_from-slash [] x y)
    ∙ components_of-append (split_from is_slash [] x) (split_from is_slash [] y)

after_root :
    (cur x : Text)
    → first_component [] (split_from is_slash cur x)
      ≡ root_dir ∷ components_of (split_from is_slash cur x)
unfolding split_from
after_root cur [] = refl
after_root cur (c ∷ x) = elim (Bool-cases (is_slash c)) [
  | inl hit ↦ rw (hit, split_from) refl
  | inr miss ↦ rw (miss, split_from) (after_root (cur ++ c ∷ []) x)
]

pub components-slash : (x : Text) → components (b'/' ∷ x) ≡ root_dir ∷ behind x
unfolding components split_from
components-slash x = after_root [] x

pub last_name-append :
    (o : Option Text) (path : List Component) (s : Text)
    → last_name o (path ++ normal s ∷ []) ≡ some s
last_name-append o [] s = refl
last_name-append o (normal t ∷ path) s = last_name-append (some t) path s
last_name-append o (root_dir ∷ path) s = last_name-append none path s
last_name-append o (_ ∷ path) s = last_name-append none path s

-- The components between the first slash of some segments and their end.
abbrev pub inner : List Text → List Component
inner [] = []
inner (s ∷ segments) = behind (s ++ render segments)

behind-render :
    (name : Text) (after : List Text) → behind (name ++ render after) ≡ behind name ++ inner after
behind-render name [] = ap behind (append-nil name) ∙ sym (append-nil (behind name))
behind-render name (s ∷ after) = behind-slash name (s ++ render after)

-- A segment of a path is one of its components, unless it is left out.
pub components-render :
    (before : List Text) (name : Text) (after : List Text)
    → components (render (before ++ name ∷ after))
      ≡ root_dir ∷ (inner before ++ (behind name ++ inner after))
components-render [] name after =
    components-slash (name ++ render after) ∙ ap (λ c. root_dir ∷ c) (behind-render name after)
components-render (b ∷ before) name after =
    components-slash (b ++ render (before ++ name ∷ after))
    ∙ ap (λ c. root_dir ∷ c)
        (ap behind (
            ap (λ t. b ++ t) (render-append before (name ∷ after))
            ∙ sym (append_assoc b (render before) (b'/' ∷ (name ++ render after))))
          ∙ behind-slash (b ++ render before) (name ++ render after)
          ∙ ap (λ c. behind (b ++ render before) ++ c) (behind-render name after))
