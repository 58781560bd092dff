-- ===== src/Store/Fresh.antt =====
-- packages/store/src/log-store.ts: the opening of a directory in which no line was ever written.
use copy_clipboard_app.Base.{
  ◌≡◌, refl, sym, ap, ◌∙◌, subst, Text, Option, none, some, [], ◌∷◌, ◌++◌, length, Dict, arith,
}
use copy_clipboard_app.Protocol.Types.{Bytes, StoreEvent}
use copy_clipboard_app.Protocol.Result.{ok}
use copy_clipboard_app.Store.Platform.{Platform}
use copy_clipboard_app.Store.Lines.{append_line, read_lines, repair, text_of}
use copy_clipboard_app.Store.Chain.{chain_genesis}
use copy_clipboard_app.Store.Log.{Tick, Store}
use copy_clipboard_app.Store.Written.{IsOpen}
use copy_clipboard_app.Store.Opening.{unread, begun, open_lines, open_log}
use copy_clipboard_app.Store.Events.{line_of}
use copy_clipboard_app.Store.Appended.{entry, with_line, seal_and_append-event}

module _ (p : Platform) (key : Bytes) (tick : Tick) (blobs : Dict Bytes) where
  -- The checkpoint that a new log begins with.
  abbrev pub first_event : StoreEvent
  first_event = StoreEvent.checkpoint 1 tick.now 0 0

  abbrev numbered_from_one : Option Text → Store
  numbered_from_one file = record (unread p key file blobs) { anchor_seq = 1 }

  open_lines-nil :
      (file : Option Text)
      → tick.fault ≡ none
      → open_lines p key tick [] (unread p key file blobs)
        ≡ (ok tt, with_line p key tick first_event (numbered_from_one file))
  unfolding unread
  open_lines-nil file hf =
      ap (begun p key)
        (seal_and_append-event p key tick first_event (numbered_from_one file) hf refl refl)

  read_lines_nil : (o : Option Text) → text_of o ≡ [] → read_lines o ≡ []
  unfolding read_lines
  read_lines_nil none e = refl
  read_lines_nil (some []) e = refl
  read_lines_nil (some (c ∷ cs)) e = cc

  -- A log without a whole line is begun with a checkpoint.
  pub open_fresh :
      (file : Option Text)
      → tick.fault ≡ none
      → length tick.nonce ≡ 12
      → text_of (repair file) ≡ []
      → ((open_log p key tick file blobs).0 ≡ ok tt)
        × IsOpen p key (open_log p key tick file blobs).1 (entry tick first_event ∷ [])
  unfolding open_log unread append_line
  open_fresh file hf hn e =
      let same : open_log p key tick file blobs
          ≡ (ok tt, with_line p key tick first_event (numbered_from_one file)) =
        ap (λ ls. open_lines p key tick ls (unread p key file blobs))
          (read_lines_nil (repair file) e)
        ∙ open_lines-nil file hf in
      (
        ap (λ o. o.0) same,
        subst (λ o. IsOpen p key o.1 (entry tick first_event ∷ [])) (sym same)
            (record {
              written =
                  ap
                    (λ t.
                      some (
                        t ++ (line_of p key tick.nonce 0 (chain_genesis p) first_event ++ 10 ∷ [])))
                    e;
              numbered = (hn, refl, tt);
              counted = refl;
              linked = refl;
              anchored = omega arith;
              headed = refl;
            }),
      )
