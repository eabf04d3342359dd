-- ===== src/Protocol/Sockets/Checks/Paths.antt =====
-- Which paths `is_valid_user_router_path` accepts, and where it panics.
use sentia_linux.Base.{
  ℕ, ◌+◌, ◌-◌, ◌≤◌, ◌<◌, ◌≡◌, refl, ap, subst, ◌∙◌, ◌↔◌, ◌⊎◌, inl, inr, Bool, true, false, ◌&&◌,
  not, none, some, [], ◌∷◌, ◌++◌, Text, codes, arith, length, all, is_empty, text_beq, text_beq_iff,
  starts_with, ends_with, ends_with-split, ends_with-append, is_ascii_digit, Bool-cases,
  length-append, and_true, take-append_length, ◌≢◌,
}
use native.Mathlib.Decide.{dec_lt}
use sentia_linux.Protocol.Sockets.{user_router_socket_template, run_user, router_sock}
use sentia_linux.Protocol.Sockets.Checks.{slice, is_uid_segment, is_valid_user_router_path}

-- The path whose user id is missing, together with its slash.
abbrev pub without_uid : Text
without_uid = codes "/run/user/sentia/router.sock"

-- Decimal digits, at least one.
abbrev pub is_uid : Text → Bool
is_uid uid = not (is_empty uid) && all is_ascii_digit uid

abbrev pub uid_path : Text → Text
uid_path uid = run_user ++ (uid ++ router_sock)

starts_with-split : (s p : Text) → starts_with s p ≡ true → (t : Text) × (s ≡ p ++ t)
starts_with-split s [] h = (s, refl)
starts_with-split [] (c ∷ p) h = absurd (ground arith)
starts_with-split (d ∷ s) (c ∷ p) h =
    let (t, e) = starts_with-split s p (ground arith) in (t, ground arith)

starts_with-append : (p t : Text) → starts_with (p ++ t) p ≡ true
starts_with-append [] t = refl
starts_with-append (c ∷ p) t = ground (arith, starts_with-append p t)

-- A text that overlaps the front of the path is the one path where the two meet.
overlap :
    (t : Text)
    → length t < 10
    → starts_with (t ++ router_sock) run_user ≡ true
    → t ++ router_sock ≡ without_uid
overlap [] l h = absurd (cc h)
overlap (a ∷ []) l h = ground arith
overlap (a ∷ b ∷ []) l h = ground arith
overlap (a ∷ b ∷ c ∷ []) l h = ground arith
overlap (a ∷ b ∷ c ∷ d ∷ []) l h = ground arith
overlap (a ∷ b ∷ c ∷ d ∷ e ∷ []) l h = ground arith
overlap (a ∷ b ∷ c ∷ d ∷ e ∷ f ∷ []) l h = ground arith
overlap (a ∷ b ∷ c ∷ d ∷ e ∷ f ∷ g ∷ []) l h = ground arith
overlap (a ∷ b ∷ c ∷ d ∷ e ∷ f ∷ g ∷ i ∷ []) l h = ground arith
overlap (a ∷ b ∷ c ∷ d ∷ e ∷ f ∷ g ∷ i ∷ j ∷ []) l h = ground arith
overlap (a ∷ b ∷ c ∷ d ∷ e ∷ f ∷ g ∷ i ∷ j ∷ k ∷ t) l h = absurd (omega arith)

-- Otherwise the front and the back of the path leave a segment between them.
apart :
    (t : Text)
    → 10 ≤ length t
    → starts_with (t ++ router_sock) run_user ≡ true
    → (uid : Text) × (t ≡ run_user ++ uid)
apart (a ∷ b ∷ c ∷ d ∷ e ∷ f ∷ g ∷ i ∷ j ∷ k ∷ t) l h = (t, ground arith)
apart _ l h = absurd (omega arith)

slice-at : (uid : Text) (n : ℕ) → n ≡ 10 + length uid → slice (uid_path uid) 10 n ≡ some uid
unfolding slice
slice-at uid n e =
    ground
      (arith, length-append {0} uid router_sock, take-append_length {0} (n - 10) uid router_sock)

slice-uid_path : (uid : Text) → slice (uid_path uid) 10 (length (uid_path uid) - 19) ≡ some uid
slice-uid_path uid =
    slice-at uid (length (uid_path uid) - 19) (omega (arith, length-append {0} uid router_sock))

-- The three forms of a path.
template_accepted : is_valid_user_router_path user_router_socket_template ≡ some true
unfolding is_valid_user_router_path
template_accepted = refl

without_uid_panics : is_valid_user_router_path without_uid ≡ none
unfolding is_valid_user_router_path slice is_uid_segment
without_uid_panics = refl

uid_path_lem : (uid : Text) → is_valid_user_router_path (uid_path uid) ≡ some (is_uid uid)
unfolding is_valid_user_router_path is_uid_segment
uid_path_lem uid = rw (ends_with-append (run_user ++ uid) router_sock, slice-uid_path uid) refl

other_rejected :
    (path : Text)
    → path ≢ user_router_socket_template
    → (starts_with path run_user && ends_with path router_sock) ≡ false
    → is_valid_user_router_path path ≡ some false
unfolding is_valid_user_router_path
other_rejected path n h = ground (arith, text_beq_iff path user_router_socket_template)

-- A path is the template, or has not both the front and the back, or is one of a user.
data IsPath (path : Text) : Type 0 where
  template : path ≡ user_router_socket_template → IsPath path
  other :
      path ≢ user_router_socket_template
      → (starts_with path run_user && ends_with path router_sock) ≡ false
      → IsPath path
  of_user : (uid : Text) → path ≡ uid_path uid → IsPath path
  overlapping : path ≡ without_uid → IsPath path

classify_split :
    (path t : Text) → path ≡ t ++ router_sock → starts_with path run_user ≡ true → IsPath path
classify_split path t e h =
    let starts = subst (λ p. starts_with p run_user ≡ true) e h in
    elim (dec_lt (length t) 10) [
      | yes short ↦ overlapping (e ∙ overlap t short starts)
      | no long ↦
          let (uid, u) = apart t (omega arith) starts in
          of_user uid (e ∙ ap (λ r. r ++ router_sock) u)
    ]

classify : (path : Text) → IsPath path
classify path = elim (Bool-cases (text_beq path user_router_socket_template)) [
  | inl same ↦ template ((text_beq_iff path _).0 same)
  | inr differs ↦ elim (Bool-cases (starts_with path run_user && ends_with path router_sock)) [
    | inl both ↦
        let (t, e) = ends_with-split path router_sock (and_true _ _ both).1 in
        classify_split path t e (and_true _ _ both).0
    | inr lacks ↦ other (λ e. cc (differs, (text_beq_iff path _).1 e)) lacks
  ]
]

abbrev IsAccepted : Text → Type 0
IsAccepted path =
    (path ≡ user_router_socket_template)
    ⊎ ((uid : Text) × (is_uid uid ≡ true) × (path ≡ uid_path uid))

panics_at : (path : Text) → IsPath path → is_valid_user_router_path path ≡ none → path ≡ without_uid
panics_at path (overlapping e) h = e
panics_at path (template e) h = absurd (cc (template_accepted, ap is_valid_user_router_path e))
panics_at path (of_user uid e) h = absurd (cc (uid_path_lem uid, ap is_valid_user_router_path e))
panics_at path (other n l) h = absurd (cc (other_rejected path n l))

IsAccepted-form :
    (path : Text) → IsPath path → is_valid_user_router_path path ≡ some true → IsAccepted path
IsAccepted-form path (template e) h = inl e
IsAccepted-form path (of_user uid e) h =
    inr (uid, cc (uid_path_lem uid, ap is_valid_user_router_path e), e)
IsAccepted-form path (overlapping e) h =
    absurd (cc (without_uid_panics, ap is_valid_user_router_path e))
IsAccepted-form path (other n l) h = absurd (cc (other_rejected path n l))

form_accepted : (path : Text) → IsAccepted path → is_valid_user_router_path path ≡ some true
form_accepted path (inl e) = ap is_valid_user_router_path e ∙ template_accepted
form_accepted path (inr (uid, d, e)) = ap is_valid_user_router_path e ∙ uid_path_lem uid ∙ ap some d

-- `is_valid_user_router_path` panics on one path alone, /run/user/sentia/router.sock, and accepts
-- exactly the template and the paths /run/user/<digits>/sentia/router.sock.
pub is_valid_user_router_path_iff :
    (path : Text)
    → ((is_valid_user_router_path path ≡ none) ↔ (path ≡ without_uid))
      × ((is_valid_user_router_path path ≡ some true) ↔ (
          (path ≡ user_router_socket_template)
          ⊎ ((uid : Text) × (is_uid uid ≡ true) × (path ≡ uid_path uid))))
is_valid_user_router_path_iff path = (
  (panics_at path (classify path), λ e. ap is_valid_user_router_path e ∙ without_uid_panics),
  (IsAccepted-form path (classify path), form_accepted path),
)
