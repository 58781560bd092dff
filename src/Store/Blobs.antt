-- ===== src/Store/Blobs.antt =====
-- packages/store/src/blobs.ts: the files of the blobs, by their names. The wiping of keys is left
-- out, as is `close`.
use copy_clipboard_app.Base.{
  ℕ, ◌+◌, ◌-◌, Text, text_eq, codes, Bool, true, false, Option, none, some, [], ◌∷◌, ◌++◌, length,
  take, drop, ltb, if◌then◌else◌, Dict, get, set, delete,
}
use copy_clipboard_app.Protocol.Types.{Bytes}
use copy_clipboard_app.Protocol.Result.{
  Result, ok, err, store_io, store_decrypt, store_corrupt, blob_missing,
}
use copy_clipboard_app.Store.Platform.{Platform}
use copy_clipboard_app.Store.Record.{nonce_bytes, tag_bytes}

-- How a write of a blob ends: it may throw before the rename, with some bytes in the temporary file,
-- or when the file has its name.
pub data BlobWrite : Type 0 where
  done : BlobWrite
  before_rename : Bytes → BlobWrite
  after_rename : BlobWrite

-- How a removal ends: it may throw with the file still there, or gone.
pub data BlobRemoval : Type 0 where
  done kept gone : BlobRemoval

unfoldable pub total_bytes : Dict Bytes → ℕ
total_bytes [] = 0
total_bytes ((name, raw) ∷ files) = length raw + total_bytes files

module _ (p : Platform) (key : Bytes) where
  unfoldable pub sealed_blob : Bytes → Text → Bytes → Bytes
  sealed_blob nonce id bytes =
      let body_key = p.blob_key key id in
      nonce ++ (p.encrypt body_key nonce id bytes ++ p.auth_tag body_key nonce id bytes)

  abbrev pub written : BlobWrite → Text → Text → Bytes → Dict Bytes → Result Text × Dict Bytes
  written BlobWrite.done id dest sealed files = (ok id, set dest sealed files)
  written (BlobWrite.before_rename part) id dest sealed files =
      (err store_io, set (dest ++ codes ".tmp") part files)
  written BlobWrite.after_rename id dest sealed files = (err store_io, set dest sealed files)

  abbrev pub put_new :
      Option Bytes → BlobWrite → Text → Text → Bytes → Dict Bytes → Result Text × Dict Bytes
  put_new (some there) how id dest sealed files = (ok id, files)
  put_new none how id dest sealed files = written how id dest sealed files

  unfoldable pub put : BlobWrite → Bytes → Bytes → Dict Bytes → Result Text × Dict Bytes
  unfolding sealed_blob
  put how nonce bytes files =
      let id = p.content_hash bytes in
      let dest = p.file_name key id in
      put_new (get dest files) how id dest (sealed_blob nonce id bytes) files

  abbrev pub opened_blob : Text → Option Bytes → Result Bytes
  opened_blob id none = err store_decrypt
  opened_blob id (some plain) =
      if text_eq (p.content_hash plain) id then ok plain else err store_corrupt

  abbrev pub open_blob : Text → Bytes → Result Bytes
  open_blob id raw =
      if ltb (length raw) (nonce_bytes + tag_bytes)
      then err store_decrypt
      else opened_blob id (
          p.decrypt (p.blob_key key id) (take nonce_bytes raw) id
            (drop (length raw - tag_bytes) raw)
            (drop nonce_bytes (take (length raw - tag_bytes) raw)))

  abbrev pub read_blob : Text → Option Bytes → Result Bytes
  read_blob id none = err blob_missing
  read_blob id (some raw) = open_blob id raw

  unfoldable pub get_blob : Text → Dict Bytes → Result Bytes
  get_blob id files = read_blob id (get (p.file_name key id) files)

  abbrev pub unlinked : Option Bytes → BlobRemoval → Text → Dict Bytes → Result Bool × Dict Bytes
  unlinked none how file files = (ok false, files)
  unlinked (some raw) BlobRemoval.done file files = (ok true, delete file files)
  unlinked (some raw) BlobRemoval.kept file files = (err store_io, files)
  unlinked (some raw) BlobRemoval.gone file files = (err store_io, delete file files)

  unfoldable pub remove_blob : BlobRemoval → Text → Dict Bytes → Result Bool × Dict Bytes
  remove_blob how id files =
      let file = p.file_name key id in unlinked (get file files) how file files
