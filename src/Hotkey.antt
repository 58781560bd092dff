-- ===== src/Hotkey.antt =====
-- packages/hotkey/src/index.ts: the accelerators that may be bound, and the state of the hotkey. What
-- the agent answers to a request is an argument of the call; the subscribers are left out.
pub mod Bound
pub mod Examples
use copy_clipboard_app.Base.{
  ℕ, ◌==◌, Text, codes, text_eq, Bool, true, false, not, ◌&&◌, ◌||◌, Option, none, some, List, [],
  ◌∷◌, length, leb, ltb, any, if◌then◌else◌, includes,
}
use copy_clipboard_app.Protocol.Result.{Result, ErrorCode, ok, err, hotkey_invalid, hotkey_taken}

pub data HotkeyStatus : Type 0 where
  active unbound failed : HotkeyStatus

abbrev pub modifiers : List Text
modifiers =
    codes "Command"
    ∷ codes "Cmd"
    ∷ codes "Control"
    ∷ codes "Ctrl"
    ∷ codes "CommandOrControl"
    ∷ codes "CmdOrCtrl"
    ∷ codes "Alt"
    ∷ codes "Option"
    ∷ codes "AltGr"
    ∷ codes "Shift"
    ∷ codes "Super"
    ∷ codes "Meta"
    ∷ []

abbrev pub named_keys : List Text
named_keys =
    codes "Space"
    ∷ codes "Tab"
    ∷ codes "Backspace"
    ∷ codes "Delete"
    ∷ codes "Insert"
    ∷ codes "Return"
    ∷ codes "Enter"
    ∷ codes "Up"
    ∷ codes "Down"
    ∷ codes "Left"
    ∷ codes "Right"
    ∷ codes "Home"
    ∷ codes "End"
    ∷ codes "PageUp"
    ∷ codes "PageDown"
    ∷ codes "Escape"
    ∷ codes "Esc"
    ∷ codes "Plus"
    ∷ codes "CapsLock"
    ∷ codes "NumLock"
    ∷ codes "ScrollLock"
    ∷ codes "PrintScreen"
    ∷ []

abbrev is_digit : ℕ → Bool
is_digit c = leb 48 c && leb c 57

-- `[A-Za-z0-9]` and `F(?:[1-9]|1[0-9]|2[0-4])`
unfoldable pub is_plain_key : Text → Bool
is_plain_key (c ∷ []) = (leb 65 c && leb c 90) || (leb 97 c && leb c 122) || is_digit c
is_plain_key (f ∷ d ∷ []) = (f == 70) && (leb 49 d && leb d 57)
is_plain_key (f ∷ t ∷ d ∷ []) =
    (f == 70) && (((t == 49) && is_digit d) || ((t == 50) && (leb 48 d && leb d 52)))
is_plain_key _ = false

abbrev pub first_longer : ℕ → List Text → List Text
first_longer c [] = (c ∷ []) ∷ []
first_longer c (t ∷ ts) = (c ∷ t) ∷ ts

-- The parts between the plus signs.
unfoldable pub parts_of : Text → List Text
parts_of [] = [] ∷ []
parts_of (c ∷ cs) = let rest = parts_of cs in if c == 43 then [] ∷ rest else first_longer c rest

-- Modifiers, at least one, and then a key.
unfoldable pub are_parts : Bool → List Text → Bool
unfolding is_plain_key
are_parts modified [] = false
are_parts modified (key ∷ []) = modified && (is_plain_key key || includes key named_keys)
are_parts modified (m ∷ t ∷ ts) = let rest = are_parts true (t ∷ ts) in includes m modifiers && rest

-- `isValidAccelerator`: no part has a plus sign, so the expression matches by parts
unfoldable pub is_valid_accelerator : Text → Bool
unfolding are_parts parts_of
is_valid_accelerator a = ltb 0 (length a) && leb (length a) 64 && are_parts false (parts_of a)

pub record Hotkey : Type 0 where
  pub accelerator : Option Text
  pub status : HotkeyStatus

abbrev pub new_hotkey : Hotkey
new_hotkey = record { accelerator = none; status = unbound }

-- What follows the agent's answer: an error, or whether it bound the accelerator.
abbrev pub answered : Text → Result Bool → Result Text × Hotkey
answered next (err code) = (err code, record { accelerator = some next; status = failed })
answered next (ok false) = (err hotkey_taken, record { accelerator = some next; status = failed })
answered next (ok true) = (ok next, record { accelerator = some next; status = active })

unfoldable pub bind : Text → Result Bool → Hotkey → Result Text × Hotkey
unfolding is_valid_accelerator
bind next reply h =
    if is_valid_accelerator next then answered next reply else (err hotkey_invalid, h)

unfoldable pub unbind : Result (Unit {0}) → Hotkey → Result Bool × Hotkey
unbind (err code) h = (err code, h)
unbind (ok u) h = (ok false, new_hotkey)

-- A call, with what the agent answers to its request.
pub data HotkeyCall : Type 0 where
  binds : Text → Result Bool → HotkeyCall
  unbinds : Result (Unit {0}) → HotkeyCall

unfoldable pub call_all : List HotkeyCall → Hotkey → Hotkey
unfolding bind unbind
call_all [] h = h
call_all (binds next reply ∷ calls) h = call_all calls (bind next reply h).1
call_all (unbinds reply ∷ calls) h = call_all calls (unbind reply h).1
