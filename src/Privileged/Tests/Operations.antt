-- ===== src/Privileged/Tests/Operations.antt =====
-- The operations at work: names, requests, paths, processes and units.
use sentia_linux.Base.{
  ◌≡◌, ◌↔◌, refl, true, false, Option, some, List, [], ◌∷◌, codes, All, ok, err,
}
use sentia_linux.Privileged.Operation.{
  Operation, apt_install, validate, validate_package, validate_packages, invalid_package,
}
use sentia_linux.Privileged.Operation.Names.{IsInert}
use sentia_linux.Privileged.Operation.Validity.{
  IsValid, validate_iff, validate-words-IsInert, words,
}
use sentia_linux.Privileged.Executor.Paths.{
  Component, root_dir, normal, Metadata, trusted_path, walk, is_absolute, Trusted, trusted_path_iff,
}
use sentia_linux.Privileged.Tests.{restart_ssh}

abbrev curl_and_git : Operation
curl_and_git = apt_install (codes "curl" ∷ codes "git" ∷ [])

validate_iff_example : (validate restart_ssh ≡ ok tt) ↔ IsValid restart_ssh
validate_iff_example = validate_iff restart_ssh

-- Names that the broker takes, and names that it refuses.
accepts_packages : validate curl_and_git ≡ ok tt
unfolding validate validate_packages validate_package
accepts_packages = refl

refuses_option : validate_package (codes "-o") ≡ err invalid_package
unfolding validate_package
refuses_option = refl

validate-words-IsInert_example : All IsInert (words curl_and_git)
unfolding validate validate_packages validate_package
validate-words-IsInert_example = validate-words-IsInert curl_and_git refl

abbrev of_root : List Component → Option Metadata
of_root path = some (record { is_symlink = false; is_file = true; uid = 0; mode = 493 })

abbrev etc_passwd : List Component
etc_passwd = root_dir ∷ normal (codes "etc") ∷ normal (codes "passwd") ∷ []

trusts_etc_passwd : trusted_path of_root etc_passwd ≡ ok tt
unfolding trusted_path walk
trusts_etc_passwd = refl

trusted_path_iff_example :
    (trusted_path of_root etc_passwd ≡ ok tt)
    ↔ ((is_absolute etc_passwd ≡ true) × Trusted of_root [] etc_passwd)
trusted_path_iff_example = trusted_path_iff of_root etc_passwd
