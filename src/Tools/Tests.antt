-- ===== src/Tools/Tests.antt =====
-- Paths and names at the policy of the tools.
use sentia_linux.Base.{◌≡◌, refl, false, List, [], ◌∷◌, Text, codes, ok, split_from}
use sentia_linux.Tools.Validation.{
  components, file_name, validate_absolute_path, denied_reason, check_reason, enforce_path_policy,
  normalize_service_name,
}
use sentia_linux.Tools.Validation.Policy.{IsSensitive, enforce_path_policy-IsSensitive}

abbrev hosts : List Text
hosts = codes "etc" ∷ codes "hosts" ∷ []

enforce_path_policy-IsSensitive_example : ¬ (IsSensitive hosts)
unfolding enforce_path_policy validate_absolute_path components file_name denied_reason check_reason
    split_from
enforce_path_policy-IsSensitive_example = enforce_path_policy-IsSensitive hosts refl

-- `Path::components` leaves a dot out, and the tests of the policy are on the text.
dot_passes : enforce_path_policy (codes "/etc/./shadow") false ≡ ok tt
unfolding enforce_path_policy validate_absolute_path components file_name denied_reason check_reason
    split_from
dot_passes = refl

second_slash_passes : enforce_path_policy (codes "//root/.bashrc") false ≡ ok tt
unfolding enforce_path_policy validate_absolute_path components file_name denied_reason check_reason
    split_from
second_slash_passes = refl

names_service : normalize_service_name (codes "ssh") ≡ ok (codes "ssh.service")
unfolding normalize_service_name
names_service = refl
