-- ===== src/Hotkey/Examples.antt =====
-- A combination that is taken, one that is not valid, and one that is bound.
use copy_clipboard_app.Base.{codes, text_eq, includes, ◌≡◌, refl, true, false}
use copy_clipboard_app.Hotkey.{is_valid_accelerator, are_parts, parts_of, is_plain_key}

valid : is_valid_accelerator (codes "Cmd+Shift+V") ≡ true
unfolding is_valid_accelerator are_parts parts_of is_plain_key includes text_eq
valid = refl

without_modifier : is_valid_accelerator (codes "V") ≡ false
unfolding is_valid_accelerator are_parts parts_of is_plain_key includes text_eq
without_modifier = refl
