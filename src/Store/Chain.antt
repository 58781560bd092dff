-- ===== src/Store/Chain.antt =====
-- packages/store/src/chain.ts: the hash chain over the sealed lines. The verifier's state is the hash
-- that it expects.
use copy_clipboard_app.Base.{Text, codes, text_eq, List, [], ◌∷◌, ◌++◌, if◌then◌else◌}
use copy_clipboard_app.Protocol.Result.{Result, ok, err, store_chain_broken}
use copy_clipboard_app.Store.Platform.{Platform}

module _ (p : Platform) where
  abbrev pub chain_genesis : Text
  chain_genesis = p.content_hash (codes "cairn/store/v1/genesis")

  abbrev pub chain_next : Text → Text → Text
  chain_next prev line = p.content_hash (prev ++ line)

  -- The loop of `chainTip`, from a tip on.
  unfoldable pub chain_from : Text → List Text → Text
  chain_from tip [] = tip
  chain_from tip (line ∷ lines) = chain_from (chain_next tip line) lines

  unfoldable pub chain_tip : List Text → Text
  unfolding chain_from
  chain_tip lines = chain_from chain_genesis lines

  -- `check`: the hash that is expected next
  unfoldable pub check_link : Text → Text → Text → Result Text
  check_link expected line prev =
      if text_eq prev expected then ok (chain_next expected line) else err store_chain_broken
