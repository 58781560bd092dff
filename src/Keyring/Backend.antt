-- ===== src/Keyring/Backend.antt =====
-- packages/keyring/src/backend.ts: what protects the key, as `safeStorage` reports it.
use copy_clipboard_app.Base.{
  Text, codes, text_eq, Bool, true, false, Option, none, some, List, [], ◌∷◌, if◌then◌else◌,
}

pub data AgentPlatform : Type 0 where
  macos win32 linux : AgentPlatform

pub data KeyringBackend : Type 0 where
  basic_text gnome_libsecret kwallet kwallet5 kwallet6 unknown unavailable : KeyringBackend

-- `unprotected` is 'none'.
pub data BackendStrength : Type 0 where
  os_keychain os_keyring dpapi unprotected : BackendStrength

pub record BackendReport : Type 0 where
  pub backend : KeyringBackend
  pub strength : BackendStrength
  pub notes : List Text
  pub warning : Option Text

-- What `safeStorage` answers at one time. `selected_backend` is `none` where the method is missing.
pub record Probe : Type 0 where
  pub is_encryption_available : Bool
  pub selected_backend : Option Text

abbrev pub known_backends : List (Text × KeyringBackend)
known_backends =
    (codes "basic_text", basic_text)
    ∷ (codes "gnome_libsecret", gnome_libsecret)
    ∷ (codes "kwallet", kwallet)
    ∷ (codes "kwallet5", kwallet5)
    ∷ (codes "kwallet6", kwallet6)
    ∷ (codes "unknown", unknown)
    ∷ (codes "unavailable", unavailable)
    ∷ []

abbrev pub backend_in : List (Text × KeyringBackend) → Text → KeyringBackend
backend_in [] raw = unknown
backend_in (known ∷ others) raw = if text_eq raw known.0 then known.1 else backend_in others raw

abbrev pub selected : Option Text → Text
selected none = codes "unknown"
selected (some raw) = raw

abbrev pub banner_keyring_weak : Text
banner_keyring_weak =
    codes
      "Your desktop has no secure keyring, so Cairn will not pretend to encrypt. Set a passphrase."

abbrev windows_dpapi_warning : Text
windows_dpapi_warning =
    codes
      "DPAPI is per-user, so any process running as you can decrypt this store with no prompt. It protects against disk theft and other accounts, not local malware."

abbrev macos_keychain_note : Text
macos_keychain_note =
    codes
      "The macOS Keychain ACL is bound to this build's code signature. Re-signing or replacing the app can lock the store until you re-key."

abbrev linux_keyring_note : Text
linux_keyring_note =
    codes
      "Your desktop keyring holds the key. It is unlocked with your login session, so anything running as you can ask for it."

abbrev pub weak_report : KeyringBackend → BackendReport
weak_report backend = record {
  backend = backend;
  strength = unprotected;
  notes = [];
  warning = some banner_keyring_weak;
}

abbrev pub strong_report : AgentPlatform → KeyringBackend → BackendReport
strong_report macos backend = record {
  backend = backend;
  strength = os_keychain;
  notes = macos_keychain_note ∷ [];
  warning = none;
}
strong_report win32 backend = record {
  backend = backend;
  strength = dpapi;
  notes = windows_dpapi_warning ∷ [];
  warning = none;
}
strong_report linux backend = record {
  backend = backend;
  strength = os_keyring;
  notes = linux_keyring_note ∷ [];
  warning = none;
}

abbrev pub is_basic_text : KeyringBackend → Bool
is_basic_text basic_text = true
is_basic_text _ = false

-- `probeBackend`
unfoldable pub probe_backend : AgentPlatform → Probe → BackendReport
probe_backend platform probe =
    let backend = backend_in known_backends (selected probe.selected_backend) in
    if probe.is_encryption_available
    then (if is_basic_text backend then weak_report backend else strong_report platform backend)
    else weak_report unavailable

abbrev pub is_unprotected : BackendStrength → Bool
is_unprotected unprotected = true
is_unprotected _ = false
