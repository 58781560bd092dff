-- ===== src/Hotkey/Bound.antt =====
-- packages/hotkey/src/index.ts: an active hotkey is one that the agent bound.
use copy_clipboard_app.Base.{
  Text, ◌≡◌, refl, Bool, true, false, inl, inr, Option, none, some, List, [], ◌∷◌, if◌then◌else◌,
  Bool-cases,
}
use copy_clipboard_app.Protocol.Result.{Result, ok, err}
use copy_clipboard_app.Hotkey.{
  active, failed, is_valid_accelerator, Hotkey, new_hotkey, answered, bind, unbind, HotkeyCall,
  binds, unbinds, call_all,
}

-- What was bound last, by the calls alone: the accelerator of the last valid bind that no answered
-- unbind follows, and whether the agent bound it.
abbrev pub after_bind : Text → Result Bool → Option (Text × Bool)
after_bind next (err code) = some (next, false)
after_bind next (ok bound) = some (next, bound)

unfoldable pub last_bound : List HotkeyCall → Option (Text × Bool) → Option (Text × Bool)
last_bound [] b = b
last_bound (binds next reply ∷ calls) b =
    last_bound calls (if is_valid_accelerator next then after_bind next reply else b)
last_bound (unbinds (err code) ∷ calls) b = last_bound calls b
last_bound (unbinds (ok u) ∷ calls) b = last_bound calls none

abbrev pub hotkey_of : Option (Text × Bool) → Hotkey
hotkey_of none = new_hotkey
hotkey_of (some (a, true)) = record { accelerator = some a; status = active }
hotkey_of (some (a, false)) = record { accelerator = some a; status = failed }

answered_lem :
    (next : Text) (reply : Result Bool)
    → (answered next reply).1 ≡ hotkey_of (after_bind next reply)
answered_lem next (err code) = refl
answered_lem next (ok true) = refl
answered_lem next (ok false) = refl

call_all-from :
    (calls : List HotkeyCall) (b : Option (Text × Bool))
    → call_all calls (hotkey_of b) ≡ hotkey_of (last_bound calls b)
unfolding call_all bind unbind last_bound
call_all-from [] b = refl
call_all-from (binds next reply ∷ calls) b = elim (Bool-cases (is_valid_accelerator next)) [
  | inl e ↦ rw (e, answered_lem next reply) (call_all-from calls (after_bind next reply))
  | inr e ↦ rw e (call_all-from calls b)
]
call_all-from (unbinds (err code) ∷ calls) b = call_all-from calls b
call_all-from (unbinds (ok u) ∷ calls) b = call_all-from calls none

-- After any binds and unbinds, whatever the agent answers, the hotkey is what the last of them left:
-- active exactly if the last valid bind was answered with `bound: true`, failed if it was refused or
-- the combination is taken, and unbound if an unbind was answered since, or nothing valid was bound.
-- An accelerator that is not valid changes nothing.
pub call_all_lem :
    (calls : List HotkeyCall) → call_all calls new_hotkey ≡ hotkey_of (last_bound calls none)
call_all_lem calls = call_all-from calls none
