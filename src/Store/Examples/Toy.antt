-- ===== src/Store/Examples/Toy.antt =====
-- A platform that meets what the store relies on: its cipher puts the additional data in front of the
-- plain text.
use copy_clipboard_app.Base.{
  ℕ, ◌+◌, ◌-◌, ◌%◌, ◌≡◌, ◌≢◌, refl, sym, ap, ◌∙◌, Text, codes, text_eq, text_eq_refl, text_eq→eq,
  true, Option, none, some, List, [], ◌∷◌, ◌++◌, length, take, drop, if◌then◌else◌, arith, inl, inr,
  Bool-cases,
}
use mathlib.Core.List.{append-nil}
use copy_clipboard_app.Protocol.Types.{Bytes}
use copy_clipboard_app.Store.Platform.{
  Platform, IsPlatform, RecordPayload, Parsed, parsed_of, is_hash, is_one_line,
}
use copy_clipboard_app.Store.Sealed.{take-append, drop-append}
use copy_clipboard_app.Store.Examples.Payloads.{payload}

abbrev decrypt_toy : Bytes → Bytes → Option Bytes
decrypt_toy aad [] = none
decrypt_toy aad (n ∷ rest) = if text_eq (take n rest) aad then some (drop n rest) else none

decrypt_toy-encrypted :
    (aad other plain : Bytes)
    → decrypt_toy other (length aad ∷ (aad ++ plain))
      ≡ (if text_eq aad other then some plain else none)
decrypt_toy-encrypted aad other plain =
    rw (take-append (length aad) aad plain refl, drop-append (length aad) aad plain refl) refl

abbrev zeros : Bytes
zeros = 0 ∷ 0 ∷ 0 ∷ 0 ∷ 0 ∷ 0 ∷ 0 ∷ 0 ∷ 0 ∷ 0 ∷ 0 ∷ 0 ∷ 0 ∷ 0 ∷ 0 ∷ 0 ∷ []

-- A checksum of the start of a text, as the last letter of its hash.
unfoldable pub sum_of : Bytes → ℕ
sum_of [] = 0
sum_of (b ∷ bs) = b + sum_of bs

abbrev hash_toy : ℕ → Text
hash_toy n = codes "sha256-AAAAAAAAAAAAAAAAAAAAAAAAAAAAAAAAAAAAAAAAAA" ++ (65 + n % 26) ∷ []

hash_toy-form : (n : ℕ) → is_hash (hash_toy n) ≡ true
unfolding is_hash text_eq
hash_toy-form n = ground arith

abbrev parsed_toy : Option (RecordPayload × List ℕ) → Parsed
parsed_toy none = Parsed.not_json
parsed_toy (some (r, rest)) = Parsed.object (parsed_of r)

unfoldable pub raised : Bytes → Text
raised [] = []
raised (b ∷ bs) = (b + 11) ∷ raised bs

lowered : Text → Bytes
lowered [] = []
lowered (c ∷ cs) = (c - 11) ∷ lowered cs

lowered-raised : (bytes : Bytes) → lowered (raised bytes) ≡ bytes
unfolding lowered raised
lowered-raised [] = refl
lowered-raised (b ∷ bs) = let e : b + 11 - 11 ≡ b = omega arith in rw (e, lowered-raised bs) refl

raised-one_line : (bytes : Bytes) → is_one_line (raised bytes) ≡ true
unfolding raised
raised-one_line [] = refl
raised-one_line (b ∷ bs) = ground (arith, raised-one_line bs)

unfoldable pub toy : Platform
unfolding raised lowered sum_of
toy = record {
  encrypt = λ key nonce aad plain. length aad ∷ (aad ++ plain);
  auth_tag = λ key nonce aad plain. zeros;
  decrypt = λ key nonce aad tag ct. decrypt_toy aad ct;
  to_base64 = raised;
  from_base64 = lowered;
  content_hash = λ bytes. hash_toy (sum_of (take 51 bytes));
  file_name = λ key id. id;
  blob_key = λ key id. key;
  stringify = λ r. payload.print r;
  parse = λ bytes. parsed_toy (payload.scan bytes);
}

toy-unopened :
    (aad other plain : Bytes) → aad ≢ other → decrypt_toy other (length aad ∷ (aad ++ plain)) ≡ none
toy-unopened aad other plain apart =
    decrypt_toy-encrypted aad other plain ∙ elim (Bool-cases (text_eq aad other)) [
      | inl e ↦ absurd (apart (text_eq→eq aad other e))
      | inr e ↦ rw e refl
    ]

pub toy-IsPlatform : IsPlatform toy
unfolding toy is_hash text_eq
toy-IsPlatform = record {
  opened = λ key nonce aad plain. decrypt_toy-encrypted aad aad plain ∙ rw (text_eq_refl aad) refl;
  unopened = λ key nonce aad other plain apart. toy-unopened aad other plain apart;
  tag_length = λ key nonce aad plain. refl;
  decoded = lowered-raised;
  one_line = raised-one_line;
  hash_form = λ bytes. hash_toy-form (sum_of (take 51 bytes));
  parsed = λ r.
      ap (λ l. parsed_toy (payload.scan l)) (sym (append-nil (payload.print r)))
      ∙ ap parsed_toy (payload.scan-print r []);
}
