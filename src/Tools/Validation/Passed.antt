-- ===== src/Tools/Validation/Passed.antt =====
-- What an accepted path has passed (validation.rs, enforce_path_policy).
use sentia_linux.Base.{
  ◌≡◌, refl, Bool, true, false, ◌||◌, ◌&&◌, if◌then◌else◌, Option, none, some, Text, codes, any,
  text_beq, starts_with, ends_with, ok, then-eq-ok, reject-eq-ok, text_eq,
}
use sentia_linux.Tools.Validation.{
  components, is_dot, is_within, is_one_of, pseudo_files, credential_files, file_name,
  validate_absolute_path, denied_reason, check_reason, enforce_path_policy,
}

-- What the tests of an accepted path said.
pub record Passed (path : Text) : Type 0 where
  pub no_dots : any is_dot (components path) ≡ false
  pub no_root : starts_with path (codes "/root") ≡ false
  pub no_credential : any (text_beq path) credential_files ≡ false
  pub no_ssh : is_within path (codes ".ssh") ≡ false
  pub no_gnupg : is_within path (codes ".gnupg") ≡ false
  pub no_process :
      (starts_with path (codes "/proc/") && is_one_of pseudo_files (file_name path)) ≡ false
  pub no_key :
      (ends_with path (codes ".pem")
        || ends_with path (codes ".key")
        || ends_with path (codes ".p12"))
      ≡ false

no_reason :
    {A : Type 0} (b : Bool) (reason : A) (rest : Option A)
    → (if b then some reason else rest) ≡ none
    → (b ≡ false) × (rest ≡ none)
no_reason true reason rest h = cc
no_reason false reason rest h = (refl, h)

check_reason-eq-ok : (r : Option Text) → check_reason r ≡ ok tt → r ≡ none
unfolding check_reason
check_reason-eq-ok none h = refl
check_reason-eq-ok (some r) h = cc

pub enforce-Passed : (path : Text) → enforce_path_policy path false ≡ ok tt → Passed path
unfolding enforce_path_policy validate_absolute_path denied_reason
enforce-Passed path h =
    let (valid, policy) = then-eq-ok _ _ h in
    let (absolute, dots) = then-eq-ok _ _ valid in
    let (root, r1) = no_reason _ _ _ (check_reason-eq-ok _ policy) in
    let (credential, r2) = no_reason _ _ _ r1 in
    let (ssh, r3) = no_reason _ _ _ r2 in
    let (gnupg, r4) = no_reason _ _ _ r3 in
    let (process, r5) = no_reason _ _ _ r4 in
    let (key, _) = no_reason _ _ _ r5 in
    record {
      no_dots = reject-eq-ok _ _ dots;
      no_root = root;
      no_credential = credential;
      no_ssh = ssh;
      no_gnupg = gnupg;
      no_process = process;
      no_key = key;
    }
