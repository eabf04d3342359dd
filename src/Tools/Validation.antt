-- ===== src/Tools/Validation.antt =====
-- crates/sentia-tools/src/validation.rs: what a tool accepts as a command, a service, a limit and a
-- path. A path is its text; its components are those of `Path::components`, which drops empty segments
-- and dots.
pub mod Paths
pub mod Passed
pub mod Policy
use sentia_linux.Base.{
  ℕ, Bool, true, false, ◌&&◌, ◌||◌, not, Option, none, some, List, [], ◌∷◌, ◌++◌, Text, codes, ltb,
  ◌==◌, length, all, any, is_empty, text_beq, starts_with, ends_with, contains,
  is_ascii_alphanumeric, split_from, decimal, if◌then◌else◌, Result, ok, err, ◌>>=◌, ◌>>◌, reject,
}

-- The errors of these checks.
pub data ToolError : Type 0 where
  invalid_input permission_denied : Text → ToolError

abbrev pub max_command_token_len : ℕ
max_command_token_len = 80

abbrev pub max_service_name_len : ℕ
max_service_name_len = 128

abbrev pub is_command_char : ℕ → Bool
is_command_char c = is_ascii_alphanumeric c || c == b'-' || c == b'_' || c == b'.' || c == b'+'

pub validate_command_token : Text → Result ToolError (Unit {0})
validate_command_token token = do
  reject (is_empty token) (invalid_input (codes "command token cannot be empty"))
  reject (ltb max_command_token_len (length token))
      (invalid_input (codes "command token exceeds 80 characters"))
  reject (any (λ c. c == b'/') token)
      (invalid_input (codes "command token must not include path separators"))
  reject (not (all is_command_char token))
      (invalid_input (codes "command token contains unsupported characters"))

abbrev pub is_service_char : ℕ → Bool
is_service_char c = is_ascii_alphanumeric c || c == b'-' || c == b'_' || c == b'.' || c == b'@'

abbrev pub with_suffix : Text → Text
with_suffix service =
    if ends_with service (codes ".service") then service else service ++ codes ".service"

unfoldable pub normalize_service_name : Text → Result ToolError Text
normalize_service_name service = do
  reject (is_empty service) (invalid_input (codes "service name cannot be empty"))
  reject (ltb max_service_name_len (length service))
      (invalid_input (codes "service name exceeds 128 characters"))
  reject (not (all is_service_char service))
      (invalid_input (codes "service name contains unsupported characters"))
  ok (with_suffix service)

abbrev pub or_default : Option ℕ → ℕ → ℕ
or_default none d = d
or_default (some n) d = n

pub bounded_limit : Option ℕ → ℕ → ℕ → Text → Result ToolError ℕ
bounded_limit user_limit default_value max_value field_name =
    let value = or_default user_limit default_value in
    do
      reject (value == 0) (invalid_input (field_name ++ codes " must be greater than zero"))
      reject (ltb max_value value)
          (invalid_input (field_name ++ (codes " must be <= " ++ decimal max_value)))
      ok value

-- `std::path::Component`, without the prefix of a Windows path
pub data Component : Type 0 where
  root_dir cur_dir parent_dir : Component
  normal : Text → Component

-- A segment between two slashes, behind the first.
abbrev pub component : Text → List Component
component s =
    if text_beq s (codes "..")
    then parent_dir ∷ []
    else if is_empty s || text_beq s (codes ".")
    then []
    else normal s ∷ []

abbrev pub components_of : List Text → List Component
components_of [] = []
components_of (s ∷ segments) = component s ++ components_of segments

abbrev pub is_slash : ℕ → Bool
is_slash c = c == b'/'

-- The first segment: the root if it is empty, or a dot.
abbrev pub first_component : Text → List Text → List Component
first_component [] [] = []
first_component [] (s ∷ segments) = root_dir ∷ components_of (s ∷ segments)
first_component s segments =
    if text_beq s (codes ".")
    then cur_dir ∷ components_of segments
    else components_of (s ∷ segments)

abbrev pub of_segments : List Text → List Component
of_segments [] = []
of_segments (s ∷ segments) = first_component s segments

-- `Path::components`, `Path::is_absolute`, `Path::file_name`
unfoldable pub components : Text → List Component
components path = of_segments (split_from is_slash [] path)

abbrev pub is_absolute : Text → Bool
is_absolute path = starts_with path (codes "/")

abbrev pub last_name : Option Text → List Component → Option Text
last_name name [] = name
last_name name (normal s ∷ path) = last_name (some s) path
last_name name (_ ∷ path) = last_name none path

unfoldable pub file_name : Text → Option Text
unfolding components
file_name path = last_name none (components path)

abbrev pub is_dot : Component → Bool
is_dot parent_dir = true
is_dot cur_dir = true
is_dot _ = false

unfoldable pub validate_absolute_path : Text → Result ToolError (Unit {0})
unfolding components
validate_absolute_path path = do
  reject (not (is_absolute path)) (invalid_input (codes "path must be an absolute filesystem path"))
  reject (any is_dot (components path))
      (invalid_input (codes "path must not contain dot or dot-dot components"))

abbrev pub credential_files : List Text
credential_files =
    codes "/etc/shadow"
    ∷ codes "/etc/gshadow"
    ∷ codes "/etc/sudoers"
    ∷ codes "/etc/security/opasswd"
    ∷ []

abbrev pub pseudo_files : List Text
pseudo_files = codes "environ" ∷ codes "mem" ∷ codes "kcore" ∷ codes "cmdline" ∷ []

abbrev pub is_one_of : List Text → Option Text → Bool
is_one_of names none = false
is_one_of names (some s) = any (text_beq s) names

-- The directory of a name, or something in it.
abbrev pub is_within : Text → Text → Bool
is_within path name = contains path ((b'/' ∷ name) ++ codes "/") || ends_with path (b'/' ∷ name)

unfoldable pub denied_reason : Text → Option Text
unfolding file_name
denied_reason path =
    if starts_with path (codes "/root")
    then some (codes "root-owned home content")
    else if any (text_beq path) credential_files
    then some (codes "credential or password policy content")
    else if is_within path (codes ".ssh")
    then some (codes "ssh credential material")
    else if is_within path (codes ".gnupg")
    then some (codes "gnupg private material")
    else if starts_with path (codes "/proc/") && is_one_of pseudo_files (file_name path)
    then some (codes "process-sensitive kernel pseudo files")
    else if ends_with path (codes ".pem")
        || ends_with path (codes ".key")
        || ends_with path (codes ".p12")
    then some (codes "likely key or certificate material")
    else none

unfoldable pub check_reason : Option Text → Result ToolError (Unit {0})
check_reason none = ok tt
check_reason (some reason) = err (
    permission_denied
      (codes "access to sensitive path denied by default policy (" ++ (reason ++ codes ")")))

unfoldable pub enforce_path_policy : Text → Bool → Result ToolError (Unit {0})
unfolding validate_absolute_path denied_reason check_reason
enforce_path_policy path allow_sensitive = do
  validate_absolute_path path
  if allow_sensitive then ok tt else check_reason (denied_reason path)
