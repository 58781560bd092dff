-- ===== src/Protocol/Ids.antt =====
-- packages/protocol/src/id.ts: an item id is ten base-32 digits of the time, then sixteen of
-- randomness. The check for exactly ten random bytes is in `new_item_id`; `none` is its exception.
use copy_clipboard_app.Base.{
  ℕ, zero, suc, ◌+◌, ◌-◌, ◌*◌, ◌/◌, ◌%◌, ◌^◌, Text, Option, none, some, [], ◌∷◌, ◌++◌, length, take,
  ltb, ◌==◌, if◌then◌else◌,
}
use copy_clipboard_app.Protocol.Types.{Bytes}

-- CROCKFORD[d]: the digits, then the letters without I, L, O and U
unfoldable pub crockford : ℕ → ℕ
crockford d =
    if ltb d 10
    then b'0' + d
    else if ltb d 18
    then b'A' + (d - 10)
    else if ltb d 20
    then b'J' + (d - 18)
    else if ltb d 22
    then b'M' + (d - 20)
    else if ltb d 27
    then b'P' + (d - 22)
    else b'V' + (d - 27)

-- The loop over the time: a digit is put in front in each round.
unfoldable pub time_digits : ℕ → ℕ → Text → Text
unfolding crockford
time_digits zero n ts = ts
time_digits (suc rounds) n ts = time_digits rounds (n / 32) (crockford (n % 32) ∷ ts)

-- The inner loop: `while (bits >= 5)`, for at most `fuel` rounds. A byte adds 8 bits to fewer than 5.
unfoldable pub emit_digits : ℕ → ℕ → ℕ → Text → ℕ × Text
unfolding crockford
emit_digits zero bits acc rand = (bits, rand)
emit_digits (suc fuel) bits acc rand =
    let rest =
      emit_digits fuel (bits - 5) acc (rand ++ crockford ((acc / 2 ^ (bits - 5)) % 32) ∷ []) in
    if ltb bits 5 then (bits, rand) else rest

-- `acc` is a 32-bit integer in the source; the bits that are read are below its 13 lowest.
unfoldable pub random_digits : Bytes → ℕ → ℕ → Text → Text
unfolding emit_digits
random_digits [] bits acc rand = rand
random_digits (byte ∷ rnd) bits acc rand =
    let acc' = (acc * 256 + byte) % 2 ^ 32 in
    let (bits', rand') = emit_digits 3 (bits + 8) acc' rand in random_digits rnd bits' acc' rand'

-- The id itself, for ten random bytes.
unfoldable pub item_id : ℕ → Bytes → Text
unfolding time_digits random_digits
item_id now rnd = time_digits 10 now [] ++ take 16 (random_digits rnd 0 0 [])

pub new_item_id : ℕ → Bytes → Option Text
unfolding item_id
new_item_id now rnd = if length rnd == 10 then some (item_id now rnd) else none
