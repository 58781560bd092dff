-- ===== src/Store/Reopened.antt =====
-- packages/store/src/log-store.ts: the opening of a log that was written line by line, with or without
-- a torn line behind it.
use copy_clipboard_app.Base.{
  ℕ, ◌<◌, ◌≡◌, refl, sym, ap, ◌∙◌, subst, Text, text_eq_refl, true, Option, some, List, [], ◌∷◌,
  ◌++◌, length, arith, Dict,
}
use copy_clipboard_app.Protocol.Types.{Bytes, StoreEvent}
use copy_clipboard_app.Protocol.Result.{ok}
use copy_clipboard_app.Store.Platform.{Platform, IsPlatform, is_hash}
use copy_clipboard_app.Store.Lines.{read_lines, repair}
use copy_clipboard_app.Store.Chain.{chain_genesis, chain_tip}
use copy_clipboard_app.Store.Record.{StoreEventKind, kind_text}
use copy_clipboard_app.Store.Payload.{payload_with}
use copy_clipboard_app.Store.Log.{Tick, Store}
use copy_clipboard_app.Store.Sealed.{open_record-sealed}
use copy_clipboard_app.Store.Events.{
  seq_of, time_of, kind_of, extra_of, line_of, decode_payload-stringify,
}
use copy_clipboard_app.Store.Files.{OneLine, text_of_lines, read_lines_whole, repair-text}
use copy_clipboard_app.Store.Written.{
  Entry, IsNumbered, IsHeaded, IsOpen, lines_from, lines_from-OneLine, length-lines_from,
  chain_from-lines_from,
}
use copy_clipboard_app.Store.Opening.{unread, read_anchor, open_lines, open_log}

module _ (p : Platform) (laws : IsPlatform p) (key : Bytes) where
  -- The anchor of a log that begins with a checkpoint is its number.
  read_anchor-line_of :
      (nonce : Bytes) (tip : Text) (e : StoreEvent)
      → length nonce ≡ 12
      → is_hash tip ≡ true
      → kind_of e ≡ StoreEventKind.checkpoint
      → read_anchor p key (line_of p key nonce 0 tip e) ≡ ok (seq_of e)
  unfolding read_anchor
  read_anchor-line_of nonce tip e hn ht hk = rw hk (
      rw
        (
          open_record-sealed p laws key nonce 0 0 StoreEventKind.checkpoint
              (p.stringify
                (payload_with (seq_of e) (time_of e) StoreEventKind.checkpoint tip (extra_of e)))
              hn,
          decode_payload-stringify p laws key (seq_of e) (time_of e) StoreEventKind.checkpoint tip
              (extra_of e) ht,
        )
        (rw (text_eq_refl (kind_text StoreEventKind.checkpoint)) refl))

  module _ (tick : Tick) (anchor : ℕ) (xs : List Entry) (numbered : IsNumbered anchor 0 xs)
      (headed : IsHeaded xs) (anchored : 0 < anchor) where
    abbrev lines : List Text
    lines = lines_from p key 0 (chain_genesis p) xs

    abbrev adopted_store : Store → Store
    adopted_store s = record s {
      anchor_seq = anchor;
      line_count = length lines;
      tip_hash = chain_tip p lines;
    }

    open_lines-lines : (s : Store) → open_lines p key tick lines s ≡ (ok tt, adopted_store s)
    open_lines-lines s = go xs numbered headed
      where
        go :
            (ys : List Entry)
            → IsNumbered anchor 0 ys
            → IsHeaded ys
            → open_lines p key tick (lines_from p key 0 (chain_genesis p) ys) s ≡ (
              ok tt,
              record s {
                anchor_seq = anchor;
                line_count = length (lines_from p key 0 (chain_genesis p) ys);
                tip_hash = chain_tip p (lines_from p key 0 (chain_genesis p) ys);
              },
            )
        go [] n h = absurd h
        go (y ∷ ys) n h =
            let e : seq_of y.event ≡ anchor = omega (arith, n.1) in
            rw (read_anchor-line_of y.nonce (chain_genesis p) y.event n.0 (laws.hash_form _) h)
              (rw e refl)

    adopted_store-IsOpen :
        (s : Store) → s.log ≡ some (text_of_lines lines) → IsOpen p key (adopted_store s) xs
    unfolding chain_tip
    adopted_store-IsOpen s e = record {
      written = e;
      numbered = numbered;
      counted = length-lines_from p key 0 (chain_genesis p) xs;
      linked = chain_from-lines_from p key 0 (chain_genesis p) xs;
      anchored = anchored;
      headed = headed;
    }

    -- A log that was written line by line is opened, with or without a torn line behind it.
    pub open_log-lines :
        (file : Option Text) (torn : Text) (blobs : Dict Bytes)
        → OneLine torn
        → file ≡ some (text_of_lines lines ++ torn)
        → ((open_log p key tick file blobs).0 ≡ ok tt)
          × IsOpen p key (open_log p key tick file blobs).1 xs
    unfolding open_log unread
    open_log-lines file torn blobs ht e =
        let s = unread p key file blobs in
        let clean : s.log ≡ some (text_of_lines lines) = ap repair e ∙ repair-text lines torn ht in
        let same : open_log p key tick file blobs ≡ (ok tt, adopted_store s) =
          ap (λ ls. open_lines p key tick ls s)
            (ap read_lines clean
              ∙ read_lines_whole lines (lines_from-OneLine p key laws 0 (chain_genesis p) xs))
          ∙ open_lines-lines s in
        (
          ap (λ o. o.0) same,
          subst (λ o. IsOpen p key o.1 xs) (sym same) (adopted_store-IsOpen s clean),
        )
