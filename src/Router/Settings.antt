-- ===== src/Router/Settings.antt =====
-- crates/sentia-router/src/settings.rs: the settings of a user, in memory and in their file. What the
-- file system answers is a record, read in the order of the code; the temporary file that a failed
-- write removes is not a part of the state.
pub mod Kept
use sentia_linux.Base.{
  ℕ, Bool, ◌||◌, not, Option, none, some, List, [], ◌∷◌, Text, codes, ltb, is_empty, ◌==◌, ◌%◌,
  text_beq, if◌then◌else◌, Result, ok, err, ◌>>=◌, ◌>>◌, reject,
}
use sentia_linux.Protocol.Requests.{protocol_version}
use sentia_linux.Router.Redaction.{len, is_space, trim_end}
use sentia_linux.Router.Privacy.{PrivacyCategory}
use sentia_linux.Router.Requests.{RoutingPolicy, local_only, UserSettings}

-- `io::Error`, by its kind.
pub data IoError : Type 0 where
  permission_denied invalid_data invalid_input other : Text → IoError

pub record SettingsPatch : Type 0 where
  pub default_policy : Option RoutingPolicy
  pub preferred_remote_provider : Option (Option Text)
  pub remote_categories : Option (List PrivacyCategory)

-- `path` says whether the store has a file; `file` is what the file holds.
pub record SettingsStore : Type 0 where
  pub path : Bool
  pub value : UserSettings
  pub file : Option UserSettings

-- `UserSettings::default`
abbrev pub default_settings : UserSettings
default_settings = record {
  version = protocol_version;
  default_policy = local_only;
  preferred_remote_provider = none;
  remote_categories = [];
}

pub record LoadAnswers : Type 0 where
  pub exists : Bool
  pub is_symlink : Result IoError Bool
  pub mode : Result IoError ℕ
  pub parsed : Result IoError UserSettings

-- `mode & 0o077 != 0`
abbrev pub is_open : ℕ → Bool
is_open mode = not (mode % 64 == 0)

pub load_file : LoadAnswers → Result IoError UserSettings
load_file a = do
  is_symlink ← a.is_symlink
  reject is_symlink (permission_denied (codes "refusing symlink settings file"))
  mode ← a.mode
  reject (is_open mode)
      (permission_denied (codes "router settings must not be accessible by group or others"))
  parsed ← a.parsed
  reject (not (text_beq parsed.version protocol_version))
      (invalid_data (codes "unsupported settings version"))
  ok parsed

pub load : LoadAnswers → Result IoError UserSettings
unfolding load_file
load a = if a.exists then load_file a else ok default_settings

abbrev pub trim_start : Text → Text
trim_start [] = []
trim_start (c ∷ s) = if is_space c then trim_start s else c ∷ s

abbrev pub trim : Text → Text
trim s = trim_end (trim_start s)

-- The provider that a patch asks for.
pub chosen : Option Text → Option (Option Text) → Result IoError (Option Text)
chosen old none = ok old
chosen old (some none) = ok none
chosen old (some (some name)) = do
  reject (is_empty (trim name) || ltb 48 (len (trim name)))
      (invalid_input (codes "provider identifier must contain 1 to 48 bytes"))
  ok (some (trim name))

abbrev pub or_old : {A : Type 0} → A → Option A → A
or_old old none = old
or_old old (some new) = new

pub patched : UserSettings → SettingsPatch → Result IoError UserSettings
unfolding chosen
patched old patch = do
  provider ← chosen old.preferred_remote_provider patch.preferred_remote_provider
  ok (record old {
    default_policy = or_old old.default_policy patch.default_policy;
    preferred_remote_provider = provider;
    remote_categories = or_old old.remote_categories patch.remote_categories;
  })

-- The steps of a write: the directory and the old file are no symbolic links, the temporary file is
-- written, and takes the place of the old one; then its permissions are set. What does not exist is
-- no symbolic link.
pub record WriteAnswers : Type 0 where
  pub has_parent : Bool
  pub is_parent_symlink : Result IoError Bool
  pub directory : Result IoError (Unit {0})
  pub is_symlink : Result IoError Bool
  pub temporary : Result IoError (Unit {0})
  pub renamed : Result IoError (Unit {0})
  pub sealed : Result IoError (Unit {0})

pub replaced : WriteAnswers → Result IoError (Unit {0})
replaced a = do
  reject (not a.has_parent) (invalid_input (codes "settings path has no parent"))
  is_parent_symlink ← a.is_parent_symlink
  reject is_parent_symlink (permission_denied (codes "refusing symlink settings directory"))
  a.directory
  is_symlink ← a.is_symlink
  reject is_symlink (permission_denied (codes "refusing symlink settings file"))
  a.temporary
  a.renamed

-- The file after a write, given how the steps up to the renaming ended.
pub write_private_json :
    Option UserSettings
    → UserSettings
    → Result IoError (Unit {0})
    → Result IoError (Unit {0})
    → Option UserSettings × Result IoError (Unit {0})
write_private_json file new (err e) sealed = (file, err e)
write_private_json file new (ok _) sealed = (some new, sealed)

-- The store after a write.
pub stored :
    SettingsStore
    → UserSettings
    → Option UserSettings × Result IoError (Unit {0})
    → SettingsStore × Result IoError UserSettings
stored store new (file, err e) = (record store { file = file }, err e)
stored store new (file, ok _) = (record store { value = new; file = file }, ok new)

pub persist :
    WriteAnswers
    → SettingsStore
    → Result IoError UserSettings
    → SettingsStore × Result IoError UserSettings
unfolding replaced write_private_json stored
persist a store (err e) = (store, err e)
persist a store (ok new) =
    if store.path
    then stored store new (write_private_json store.file new (replaced a) a.sealed)
    else (record store { value = new }, ok new)

pub update :
    WriteAnswers → SettingsStore → SettingsPatch → SettingsStore × Result IoError UserSettings
unfolding patched persist
update a store patch = persist a store (patched store.value patch)
