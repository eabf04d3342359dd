-- ===== src/Router/Settings/Kept.antt =====
-- The settings through any history of updates (settings.rs).
use sentia_linux.Base.{
  ◌≡◌, refl, ◌≤◌, Bool, true, false, Option, none, some, Text, is_empty, ltb, ◌||◌, arith, Result,
  ok, err, subst, ok-injective, then-eq-ok, bind-eq-ok, reject-eq-ok, if◌then◌else◌,
}
use sentia_linux.Router.Redaction.{len}
use sentia_linux.Router.Requests.{UserSettings}
use sentia_linux.Router.Settings.{
  IoError, SettingsPatch, SettingsStore, WriteAnswers, trim, chosen, patched, write_private_json,
  replaced, stored, persist, update,
}

-- A provider has a name of 1 to 48 bytes.
abbrev pub IsProvider : Option Text → Type 0
IsProvider none = Unit
IsProvider (some name) = (is_empty name ≡ false) × (len name ≤ 48)

abbrev pub IsSettings : Text → UserSettings → Type 0
IsSettings version s = (s.version ≡ version) × IsProvider s.preferred_remote_provider

abbrev pub IsFile : Text → Option UserSettings → Type 0
IsFile version none = Unit
IsFile version (some s) = IsSettings version s

named-IsProvider : (s : Text) → (is_empty s || ltb 48 (len s)) ≡ false → IsProvider (some s)
named-IsProvider s h = ground arith

chosen-IsProvider :
    (old : Option Text) (patch : Option (Option Text)) (new : Option Text)
    → IsProvider old
    → chosen old patch ≡ ok new
    → IsProvider new
unfolding chosen
chosen-IsProvider old none new h e = subst IsProvider (ok-injective e) h
chosen-IsProvider old (some none) new h e = subst IsProvider (ok-injective e) tt
chosen-IsProvider old (some (some name)) new h e =
    let (passed, is_new) = then-eq-ok _ _ e in
    let fits = reject-eq-ok _ _ passed in
    subst IsProvider (ok-injective is_new) (named-IsProvider (trim name) fits)

patched-IsSettings :
    (version : Text) (old new : UserSettings) (patch : SettingsPatch)
    → IsSettings version old
    → patched old patch ≡ ok new
    → IsSettings version new
unfolding patched
patched-IsSettings version old new patch (v, h) e =
    let (provider, is_chosen, is_new) = bind-eq-ok _ _ e in
    subst (IsSettings version) (ok-injective is_new) (
      v,
      chosen-IsProvider old.preferred_remote_provider patch.preferred_remote_provider provider h
          is_chosen,
    )

-- The settings in memory and in the file are of one version and name a provider or none.
abbrev pub IsStore : Text → SettingsStore → Type 0
IsStore version store = IsSettings version store.value × IsFile version store.file

-- What an answer says of the store before and after.
abbrev pub Answers : SettingsStore → SettingsStore → Result IoError UserSettings → Type 0
Answers before after (ok s) = (after.value ≡ s) × (before.path ≡ true → after.file ≡ some s)
Answers before after (err e) = after.value ≡ before.value

pub record IsUpdated (version : Text) (before : SettingsStore)
    (answer : SettingsStore × Result IoError UserSettings) : Type 0 where
  pub is_store : IsStore version answer.0
  pub answers : Answers before answer.0 answer.1

stored-IsUpdated :
    (version : Text) (store : SettingsStore) (new : UserSettings)
    (replacing sealed : Result IoError (Unit {0}))
    → IsStore version store
    → IsSettings version new
    → IsUpdated version store
        (stored store new (write_private_json store.file new replacing sealed))
unfolding stored write_private_json
stored-IsUpdated version store new (err e) sealed (h, f) n = record {
  is_store = (h, f);
  answers = refl;
}
stored-IsUpdated version store new (ok _) (err e) (h, f) n = record {
  is_store = (h, n);
  answers = refl;
}
stored-IsUpdated version store new (ok _) (ok _) (h, f) n = record {
  is_store = (n, n);
  answers = (refl, λ p. refl);
}

-- With a file, and without one.
either-IsUpdated :
    (version : Text) (store : SettingsStore) (new : UserSettings)
    (written : SettingsStore × Result IoError UserSettings) (has_file : Bool)
    → has_file ≡ store.path
    → IsStore version store
    → IsSettings version new
    → IsUpdated version store written
    → IsUpdated version store (if has_file then written else (record store { value = new }, ok new))
either-IsUpdated version store new written true p h n u = u
either-IsUpdated version store new written false p (h, f) n u = record {
  is_store = (n, f);
  answers = (refl, λ q. cc);
}

persist-IsUpdated :
    (version : Text) (a : WriteAnswers) (store : SettingsStore) (made : Result IoError UserSettings)
    → IsStore version store
    → ((new : UserSettings) → made ≡ ok new → IsSettings version new)
    → IsUpdated version store (persist a store made)
unfolding persist
persist-IsUpdated version a store (err e) h n = record { is_store = h; answers = refl }
persist-IsUpdated version a store (ok new) h n =
    either-IsUpdated version store new _ store.path refl h (n new refl)
      (stored-IsUpdated version store new (replaced a) a.sealed h (n new refl))

-- An update keeps the settings in memory and in the file well formed: they are of the version they
-- were of, and the preferred provider is none or a name of 1 to 48 bytes. An update that is answered
-- with settings has stored them in memory and in the file, where there is one; one that fails,
-- wherever the write broke off, leaves those in memory as they were.
pub update-IsUpdated :
    (version : Text) (a : WriteAnswers) (store : SettingsStore) (patch : SettingsPatch)
    → IsStore version store
    → IsUpdated version store (update a store patch)
unfolding update
update-IsUpdated version a store patch h =
    persist-IsUpdated version a store (patched store.value patch) h
      (λ new e. patched-IsSettings version store.value new patch h.0 e)
