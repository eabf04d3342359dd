-- ===== src/Privileged/Executor/Paths.antt =====
-- Trusted paths (executor.rs, trusted_path). A path is what `Path::components` makes of it, and the
-- metadata of a prefix is an answer of the kernel.
use sentia_linux.Base.{
  ℕ, ◌/◌, ◌%◌, ◌≡◌, refl, Bool, true, false, ◌||◌, not, Option, some, List, [], ◌∷◌, ◌++◌, arith,
  Text, ◌==◌, Result, ok, ◌>>=◌, ◌>>◌, reject, ok_or, then-eq-ok, bind-eq-ok, reject-eq-ok, ◌↔◌,
  ok_or-eq-ok,
}
use sentia_linux.Privileged.Operation.{Error, untrusted_path, path_unavailable}

-- `std::path::Component`
pub data Component : Type 0 where
  root_dir cur_dir parent_dir : Component
  normal : Text → Component
  prefix : Text → Component

abbrev pub is_absolute : List Component → Bool
is_absolute (root_dir ∷ path) = true
is_absolute _ = false

pub record Metadata : Type 0 where
  pub is_symlink : Bool
  pub is_file : Bool
  pub uid : ℕ
  pub mode : ℕ

-- `mode & 0o022 != 0`: the group or the others may write.
abbrev pub is_shared : ℕ → Bool
is_shared mode = not (mode / 16 % 2 == 0) || not (mode / 2 % 2 == 0)

abbrev pub is_plain : Component → Bool
is_plain root_dir = true
is_plain (normal name) = true
is_plain _ = false

abbrev pub is_trusted : Metadata → Bool
is_trusted m = not (m.is_symlink || not (m.uid == 0) || is_shared m.mode)

not-not : (b : Bool) → not b ≡ false → b ≡ true
not-not true h = refl
not-not false h = cc

plain_facts : (c : Component) → not (is_plain c) ≡ false → is_plain c ≡ true
plain_facts c h = not-not (is_plain c) h

trusted_facts :
    (m : Metadata)
    → not (is_trusted m) ≡ false
    → (m.is_symlink ≡ false) × (m.uid ≡ 0) × (is_shared m.mode ≡ false)
trusted_facts m h = ground arith

trusted_of_facts :
    (m : Metadata)
    → m.is_symlink ≡ false
    → m.uid ≡ 0
    → is_shared m.mode ≡ false
    → not (is_trusted m) ≡ false
trusted_of_facts m h k l = ground arith

module _ (symlink_metadata : List Component → Option Metadata) where
  -- The loop over the components; `current` is the path so far.
  unfoldable pub walk : List Component → List Component → Result Error (Unit {0})
  walk current [] = ok tt
  walk current (component ∷ path) = do
    reject (not (is_plain component)) untrusted_path
    metadata ← ok_or (symlink_metadata (current ++ component ∷ [])) path_unavailable
    reject (not (is_trusted metadata)) untrusted_path
    walk (current ++ component ∷ []) path

  unfoldable pub trusted_path : List Component → Result Error (Unit {0})
  unfolding walk
  trusted_path path = do reject (not (is_absolute path)) untrusted_path; walk [] path

  -- Every prefix of the path, from `current` on, is no link, belongs to root, and is writable by
  -- root alone.
  abbrev pub Trusted : List Component → List Component → Type 0
  Trusted current [] = Unit
  Trusted current (component ∷ path) =
      ((m : Metadata) × (symlink_metadata (current ++ component ∷ []) ≡ some m)
        × (m.is_symlink ≡ false)
        × (m.uid ≡ 0)
        × (is_shared m.mode ≡ false))
      × (is_plain component ≡ true)
      × Trusted (current ++ component ∷ []) path

  walk_sound : (current path : List Component) → walk current path ≡ ok tt → Trusted current path
  unfolding walk
  walk_sound current [] h = tt
  walk_sound current (c ∷ path) h =
      let (plain, r1) = then-eq-ok (reject (not (is_plain c)) untrusted_path) _ h in
      let (m, found, r2) =
        bind-eq-ok (ok_or (symlink_metadata (current ++ c ∷ [])) path_unavailable) _ r1 in
      let (good, rest) = then-eq-ok (reject (not (is_trusted m)) untrusted_path) _ r2 in
      let (link, owner, shared) = trusted_facts m (reject-eq-ok _ _ good) in
      (
        (m, ok_or-eq-ok _ path_unavailable found, link, owner, shared),
        plain_facts c (reject-eq-ok _ _ plain),
        walk_sound (current ++ c ∷ []) path rest,
      )

  walk_complete : (current path : List Component) → Trusted current path → walk current path ≡ ok tt
  unfolding walk
  walk_complete current [] h = refl
  walk_complete current (c ∷ path) ((m, found, link, owner, shared), plain, rest) =
      rw (plain, found)
        (rw (trusted_of_facts m link owner shared) (walk_complete (current ++ c ∷ []) path rest))

  -- A path is trusted exactly if it is absolute, all its components are names, and each of its
  -- prefixes exists, is no symbolic link, belongs to root, and is writable by nobody else.
  pub trusted_path_iff :
      (path : List Component)
      → (trusted_path path ≡ ok tt) ↔ ((is_absolute path ≡ true) × Trusted [] path)
  unfolding trusted_path
  trusted_path_iff path = (
    λ h.
        let (absolute, rest) = then-eq-ok (reject (not (is_absolute path)) untrusted_path) _ h in
        (not-not _ (reject-eq-ok _ _ absolute), walk_sound [] path rest),
    λ (absolute, rest). rw absolute (walk_complete [] path rest),
  )
