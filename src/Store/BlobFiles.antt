-- ===== src/Store/BlobFiles.antt =====
-- packages/store/src/blobs.ts: what is put can be got, and what is got is what its id names.
use copy_clipboard_app.Base.{
  ◌-◌, ◌≡◌, refl, sym, ap, ◌∙◌, Text, text_eq, text_eq_refl, text_eq→eq, false, Option, none, some,
  length, take, drop, ltb, Dict, get, set, get-set, arith, inl, inr, Bool-cases,
}
use copy_clipboard_app.Protocol.Types.{Bytes}
use copy_clipboard_app.Protocol.Result.{ok}
use copy_clipboard_app.Store.Platform.{Platform, IsPlatform}
use copy_clipboard_app.Store.Blobs.{
  BlobWrite, sealed_blob, opened_blob, open_blob, read_blob, put, get_blob,
}
use copy_clipboard_app.Store.Sealed.{sealed-IsSplit}

get-set_same : (k : Text) (v : Bytes) (m : Dict Bytes) → get k (set k v m) ≡ some v
get-set_same k v m = ground (arith, get-set k k v m, text_eq_refl k)

get-set_other :
    (k j : Text) (v : Bytes) (m : Dict Bytes) → text_eq k j ≡ false → get j (set k v m) ≡ get j m
get-set_other k j v m e = ground (arith, get-set k j v m, e)

module _ (p : Platform) (key : Bytes) where
  opened_blob-hash :
      (id : Text) (o : Option Bytes) (bytes : Bytes)
      → opened_blob p key id o ≡ ok bytes
      → p.content_hash bytes ≡ id
  opened_blob-hash id none bytes h = cc
  opened_blob-hash id (some plain) bytes h = elim (Bool-cases (text_eq (p.content_hash plain) id)) [
    | inl same ↦
        let e : plain ≡ bytes = ground (arith, same, h) in
        ap p.content_hash (sym e) ∙ text_eq→eq (p.content_hash plain) id same
    | inr other ↦ ground (arith, other, h)
  ]

  open_blob-hash :
      (id : Text) (raw bytes : Bytes)
      → open_blob p key id raw ≡ ok bytes
      → p.content_hash bytes ≡ id
  open_blob-hash id raw bytes h = elim (Bool-cases (ltb (length raw) 28)) [
    | inl short ↦ ground (arith, short, h)
    | inr long ↦
        opened_blob-hash id
          (p.decrypt (p.blob_key key id) (take 12 raw) id (drop (length raw - 16) raw)
            (drop 12 (take (length raw - 16) raw)))
          bytes (rw long at h)
  ]

  -- What is got under an id hashes to it, whatever is in the files.
  pub get_blob-hash :
      (id : Text) (files : Dict Bytes) (bytes : Bytes)
      → get_blob p key id files ≡ ok bytes
      → p.content_hash bytes ≡ id
  unfolding get_blob
  get_blob-hash id files bytes h = go (get (p.file_name key id) files) h
    where
      go : (o : Option Bytes) → read_blob p key id o ≡ ok bytes → p.content_hash bytes ≡ id
      go none e = cc
      go (some raw) e = open_blob-hash id raw bytes e

  module _ (laws : IsPlatform p) where
    open_blob-sealed :
        (nonce bytes : Bytes)
        → length nonce ≡ 12
        → open_blob p key
            (p.content_hash bytes)
            (sealed_blob p key nonce (p.content_hash bytes) bytes)
          ≡ ok bytes
    unfolding sealed_blob
    open_blob-sealed nonce bytes hn =
        let id = p.content_hash bytes in
        let body_key = p.blob_key key id in
        let s =
          sealed-IsSplit nonce (p.encrypt body_key nonce id bytes)
            (p.auth_tag body_key nonce id bytes) hn (laws.tag_length body_key nonce id bytes) in
        rw s.long (
          rw (s.head, s.end', s.middle)
            (rw (laws.opened body_key nonce id bytes) (rw (text_eq_refl id) refl)))

    -- A blob is put whose file is not there yet, under a nonce of 12 bytes. Then the put answers the
    -- hash of the bytes, the bytes are got under it, and under an id of which the file has another
    -- name the answer is the one that was given before.
    pub get_blob-put :
        (nonce bytes : Bytes) (files : Dict Bytes)
        → length nonce ≡ 12
        → get (p.file_name key (p.content_hash bytes)) files ≡ none
        → let after = put p key BlobWrite.done nonce bytes files in
          (after.0 ≡ ok (p.content_hash bytes))
          × (get_blob p key (p.content_hash bytes) after.1 ≡ ok bytes)
          × ((id : Text)
              → text_eq (p.file_name key (p.content_hash bytes)) (p.file_name key id) ≡ false
              → get_blob p key id after.1 ≡ get_blob p key id files)
    unfolding put get_blob
    get_blob-put nonce bytes files hn free =
        let id = p.content_hash bytes in
        let name = p.file_name key id in
        let sealed = sealed_blob p key nonce id bytes in
        rw free (
          refl,
          ap (read_blob p key id) (get-set_same name sealed files)
              ∙ open_blob-sealed nonce bytes hn,
          λ j apart.
              ap (read_blob p key j) (get-set_other name (p.file_name key j) sealed files apart),
        )
