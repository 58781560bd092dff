-- ===== src/Protocol/Result.antt =====
-- packages/protocol/src/result.ts. An error keeps its code; its message and log fields, which no
-- code branches on, are left out.

use copy_clipboard_app.Base.{Bool, if◌then◌else◌}

pub data ErrorCode : Type 0 where
  parse line_too_long wire_major bad_params unknown_method internal : ErrorCode
  timeout agent_spawn agent_exit agent_disposed : ErrorCode
  rep_unknown_id rep_seq_gap rep_seq_duplicate rep_after_final : ErrorCode
  rep_bad_base64 rep_overflow rep_short rep_hash_mismatch rep_timeout rep_too_many : ErrorCode
  store_corrupt store_chain_broken store_decrypt store_io blob_missing : ErrorCode
  keyring_unavailable keyring_weak_backend keyring_bad_passphrase keyring_locked : ErrorCode
  item_not_found item_expired pin_refused_secret tag_limit tag_invalid : ErrorCode
  hotkey_taken hotkey_invalid ipc_rejected : ErrorCode

pub data Result {ℓ} (A : Type ℓ) : Type ℓ where
  ok : A → Result A
  err : ErrorCode → Result A

-- `if (!r.ok) return r` in front of what comes next
infixl 5 ◌>>=◌ ◌>>◌
abbrev pub ◌>>=◌ {ℓ κ} : {A : Type ℓ} {B : Type κ} → Result A → (A → Result B) → Result B
err code >>= next = err code
ok value >>= next = next value

-- An early return of an error unless the test holds.
abbrev pub ensure : Bool → ErrorCode → Result (Unit {0})
ensure holds code = if holds then ok tt else err code

abbrev pub ◌>>◌ {ℓ} : {B : Type ℓ} → Result (Unit {0}) → Result B → Result B
done >> next = done >>= λ _. next
