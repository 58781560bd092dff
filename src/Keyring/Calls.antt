-- ===== src/Keyring/Calls.antt =====
-- packages/keyring/src/keyring.ts: the calls of a keyring as data, with restarts of the program.
use copy_clipboard_app.Base.{ℕ, Text, List, [], ◌∷◌}
use copy_clipboard_app.Protocol.Types.{Bytes}
use copy_clipboard_app.Keyring.Backend.{AgentPlatform}
use copy_clipboard_app.Keyring.KeyFile.{Crypto}
use copy_clipboard_app.Keyring.Unlocking.{
  Moment, Keyring, Outcome, new_keyring, get_or_create_master_key, unlock_with_passphrase, lock,
  rekey_after_corruption,
}

-- A restart begins with a new keyring on the same files.
pub data KeyringCall : Type 0 where
  gets : Moment → KeyringCall
  unlocks : Moment → Text → KeyringCall
  rekeys : Moment → KeyringCall
  locks restarts : KeyringCall

pub data Answer : Type 0 where
  gave : Outcome Bytes → Answer
  lost : Outcome ℕ → Answer
  done : Answer

module _ (c : Crypto) (platform : AgentPlatform) where
  unfoldable pub step : KeyringCall → Keyring → Answer × Keyring
  unfolding get_or_create_master_key unlock_with_passphrase lock rekey_after_corruption
  step (gets m) s = let r = get_or_create_master_key c platform m s in (gave r.0, r.1)
  step (unlocks m phrase) s = let r = unlock_with_passphrase c m phrase s in (gave r.0, r.1)
  step (rekeys m) s = let r = rekey_after_corruption c platform m s in (lost r.0, r.1)
  step locks s = (done, lock s)
  step restarts s = (done, new_keyring s.disk)

  unfoldable pub run : List KeyringCall → Keyring → List Answer × Keyring
  unfolding step
  run [] s = ([], s)
  run (call ∷ calls) s =
      let now = step call s in let later = run calls now.1 in (now.0 ∷ later.0, later.1)
