-- ===== src/Tools/Validation/Policy.antt =====
-- The paths that the read-only tools keep away from (validation.rs, enforce_path_policy).
use sentia_linux.Base.{
  true_or_false, contains-append, ◌≡◌, refl, sym, ap, ◌∙◌, subst, Bool, true, false, ◌||◌, ◌&&◌,
  none, some, List, [], ◌∷◌, ◌++◌, Text, codes, append_assoc, append-nil, any, starts_with,
  ends_with, contains, ends_with-append, arith, ok, All, mem, mem-All, text_eq, split_from,
}
use sentia_linux.Tools.Validation.{
  Component, root_dir, normal, parent_dir, components, is_dot, is_within, is_one_of, pseudo_files,
  last_name, file_name, enforce_path_policy,
}
use sentia_linux.Tools.Validation.Paths.{
  render, render-append, inner, behind, components-render, last_name-append,
}
use sentia_linux.Tools.Validation.Passed.{Passed, enforce-Passed}

-- The segments of a path that no tool may read.
pub data IsSensitive (segments : List Text) : Type 0 where
  in_root : (after : List Text) → segments ≡ codes "root" ∷ after → IsSensitive segments
  shadow : segments ≡ codes "etc" ∷ codes "shadow" ∷ [] → IsSensitive segments
  gshadow : segments ≡ codes "etc" ∷ codes "gshadow" ∷ [] → IsSensitive segments
  sudoers : segments ≡ codes "etc" ∷ codes "sudoers" ∷ [] → IsSensitive segments
  opasswd : segments ≡ codes "etc" ∷ codes "security" ∷ codes "opasswd" ∷ [] → IsSensitive segments
  holds_ssh :
      (before after : List Text) → segments ≡ before ++ codes ".ssh" ∷ after → IsSensitive segments
  holds_gnupg :
      (before after : List Text)
      → segments ≡ before ++ codes ".gnupg" ∷ after
      → IsSensitive segments
  process_file :
      (between : List Text) (name : Text)
      → mem name pseudo_files ≡ true
      → segments ≡ codes "proc" ∷ (between ++ name ∷ [])
      → IsSensitive segments
  key_file :
      (before : List Text) (name suffix : Text)
      → mem suffix (codes ".pem" ∷ codes ".key" ∷ codes ".p12" ∷ []) ≡ true
      → segments ≡ before ++ (name ++ suffix) ∷ []
      → IsSensitive segments
  goes_up :
      (before after : List Text) → segments ≡ before ++ codes ".." ∷ after → IsSensitive segments

is_within-segment :
    (x name : Text) (after : List Text) → is_within (x ++ b'/' ∷ (name ++ render after)) name ≡ true
is_within-segment x name [] =
    let found : ends_with (x ++ b'/' ∷ (name ++ [])) (b'/' ∷ name) ≡ true =
      subst (λ t. ends_with (x ++ b'/' ∷ t) (b'/' ∷ name) ≡ true) (sym (append-nil name))
        (ends_with-append x (b'/' ∷ name)) in
    ground (arith, found)
is_within-segment x name (s ∷ after) =
    let found : contains (x ++ b'/' ∷ (name ++ b'/' ∷ (s ++ render after)))
          ((b'/' ∷ name) ++ codes "/")
        ≡ true =
      subst (λ t. contains (x ++ t) ((b'/' ∷ name) ++ codes "/") ≡ true)
        (append_assoc (b'/' ∷ name) (codes "/") (s ++ render after))
        (contains-append x ((b'/' ∷ name) ++ codes "/") (s ++ render after)) in
    ground (arith, found)

any-is_dot-behind : (left right : List Component) → any is_dot (left ++ parent_dir ∷ right) ≡ true
any-is_dot-behind [] right = refl
any-is_dot-behind (c ∷ left) right = ground (arith, any-is_dot-behind left right)

-- A segment of this name is behind a slash.
within-render :
    (before : List Text) (name : Text) (after : List Text)
    → is_within (render (before ++ name ∷ after)) name ≡ true
within-render before name after =
    subst (λ t. is_within t name ≡ true) (sym (render-append before (name ∷ after)))
      (is_within-segment (render before) name after)

-- The last segment of a path, where it is a plain name.
file_name-render :
    (before : List Text) (name : Text)
    → behind name ≡ normal name ∷ []
    → file_name (render (before ++ name ∷ [])) ≡ some name
unfolding file_name
file_name-render before name plain =
    ap (last_name none) (
      components-render before name []
      ∙ ap (λ c. root_dir ∷ (inner before ++ c)) (append-nil (behind name) ∙ plain))
    ∙ last_name-append none (inner before) name

dots-render :
    (before after : List Text)
    → any is_dot (components (render (before ++ codes ".." ∷ after))) ≡ true
unfolding split_from
dots-render before after =
    ap (any is_dot) (components-render before (codes "..") after)
    ∙ any-is_dot-behind (inner before) (inner after)

key-render :
    (before : List Text) (name suffix : Text)
    → ends_with (render (before ++ (name ++ suffix) ∷ [])) suffix ≡ true
key-render before name suffix =
    subst (λ t. ends_with t suffix ≡ true)
      (append_assoc (render before) (b'/' ∷ name) suffix
        ∙ ap (λ t. render before ++ b'/' ∷ t) (sym (append-nil (name ++ suffix)))
        ∙ sym (render-append before ((name ++ suffix) ∷ [])))
      (ends_with-append (render before ++ b'/' ∷ name) suffix)

abbrev Plain : Text → Type 0
Plain name = (behind name ≡ normal name ∷ []) × (is_one_of pseudo_files (some name) ≡ true)

pseudo-Plain : All Plain pseudo_files
unfolding split_from
pseudo-Plain = ((refl, refl), ((refl, refl), ((refl, refl), ((refl, refl), tt))))

starts_with-none : (t : Text) → starts_with t [] ≡ true
starts_with-none [] = refl
starts_with-none (c ∷ t) = refl

proc-render :
    (between : List Text) (name : Text)
    → starts_with (render (codes "proc" ∷ (between ++ name ∷ []))) (codes "/proc/") ≡ true
proc-render [] name = starts_with-none (name ++ [])
proc-render (b ∷ between) name = starts_with-none (b ++ render (between ++ name ∷ []))

process-render :
    (between : List Text) (name : Text)
    → mem name pseudo_files ≡ true
    → (starts_with (render (codes "proc" ∷ (between ++ name ∷ []))) (codes "/proc/")
        && is_one_of pseudo_files (file_name (render (codes "proc" ∷ (between ++ name ∷ [])))))
      ≡ true
process-render between name listed =
    let plain = mem-All Plain name pseudo_files listed pseudo-Plain in
    let named =
      ap (is_one_of pseudo_files) (file_name-render (codes "proc" ∷ between) name plain.0)
      ∙ plain.1 in
    ap
      (λ b.
        b && is_one_of pseudo_files (file_name (render (codes "proc" ∷ (between ++ name ∷ [])))))
      (proc-render between name)
    ∙ named

abbrev key_suffixes : List Text
key_suffixes = codes ".pem" ∷ codes ".key" ∷ codes ".p12" ∷ []

abbrev Counts : Text → Text → Type 0
Counts path suffix =
    ends_with path suffix ≡ true
    → (ends_with path (codes ".pem")
        || ends_with path (codes ".key")
        || ends_with path (codes ".p12"))
      ≡ true

first : (a b c : Bool) → a ≡ true → (a || b || c) ≡ true
first a b c h = ground (arith, h)

second : (a b c : Bool) → b ≡ true → (a || b || c) ≡ true
second a b c h = ground (arith, h)

third : (a b c : Bool) → c ≡ true → (a || b || c) ≡ true
third a b c h = ground (arith, h)

is_key-suffix :
    (path suffix : Text)
    → mem suffix key_suffixes ≡ true
    → ends_with path suffix ≡ true
    → (ends_with path (codes ".pem")
        || ends_with path (codes ".key")
        || ends_with path (codes ".p12"))
      ≡ true
is_key-suffix path suffix listed =
    let pem = ends_with path (codes ".pem") in
    let key = ends_with path (codes ".key") in
    let p12 = ends_with path (codes ".p12") in
    mem-All (Counts path) suffix key_suffixes listed
      (first pem key p12, (second pem key p12, (third pem key p12, tt)))

refute : (segments : List Text) → Passed (render segments) → ¬ (IsSensitive segments)
refute segments p (in_root after e) =
    let q = subst (λ s. Passed (render s)) e p in true_or_false _ refl q.no_root
refute segments p (shadow e) =
    let q = subst (λ s. Passed (render s)) e p in true_or_false _ refl q.no_credential
refute segments p (gshadow e) =
    let q = subst (λ s. Passed (render s)) e p in true_or_false _ refl q.no_credential
refute segments p (sudoers e) =
    let q = subst (λ s. Passed (render s)) e p in true_or_false _ refl q.no_credential
refute segments p (opasswd e) =
    let q = subst (λ s. Passed (render s)) e p in true_or_false _ refl q.no_credential
refute segments p (holds_ssh before after e) =
    let q = subst (λ s. Passed (render s)) e p in
    true_or_false _ (within-render before (codes ".ssh") after) q.no_ssh
refute segments p (holds_gnupg before after e) =
    let q = subst (λ s. Passed (render s)) e p in
    true_or_false _ (within-render before (codes ".gnupg") after) q.no_gnupg
refute segments p (process_file between name listed e) =
    let q = subst (λ s. Passed (render s)) e p in
    true_or_false _ (process-render between name listed) q.no_process
refute segments p (key_file before name suffix listed e) =
    let q = subst (λ s. Passed (render s)) e p in
    true_or_false _ (is_key-suffix _ suffix listed (key-render before name suffix)) q.no_key
refute segments p (goes_up before after e) =
    let q = subst (λ s. Passed (render s)) e p in
    true_or_false _ (dots-render before after) q.no_dots

-- Of the paths with one slash before each segment, where a segment is any text as it is written (a
-- dot and the empty text too), a tool that was not told to allow sensitive paths accepts: none whose
-- first segment is "root"; none whose segments are exactly etc/shadow, etc/gshadow, etc/sudoers or
-- etc/security/opasswd; none with a segment ".ssh", ".gnupg" or ".."; none whose first segment is
-- "proc" and whose last is environ, mem, kcore or cmdline; and none whose last segment ends in
-- .pem, .key or .p12. Another spelling of those files, such as /etc/./shadow, is not among them.
pub enforce_path_policy-IsSensitive :
    (segments : List Text)
    → enforce_path_policy (render segments) false ≡ ok tt
    → ¬ (IsSensitive segments)
enforce_path_policy-IsSensitive segments h = refute segments (enforce-Passed (render segments) h)
