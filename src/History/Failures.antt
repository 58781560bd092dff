-- ===== src/History/Failures.antt =====
-- history.ts: an operation that answers an error has changed nothing in memory,
-- but for what the load did that it waited for.
use copy_clipboard_app.Base.{ℕ, Text, ◌≡◌, refl, Bool, Option, none, some}
use copy_clipboard_app.Protocol.Result.{Result, ErrorCode, ok, err}
use copy_clipboard_app.Protocol.Types.{Candidate, Bytes}
use copy_clipboard_app.History.Ports.{Port}
use copy_clipboard_app.History.State.{State}
use copy_clipboard_app.History.Load.{finish_load, go_on, wait_for, after_load}
use copy_clipboard_app.History.Updates.{pin, tag, set_title, pin_body, tag_body, set_title_body}
use copy_clipboard_app.History.Tabs.{create_tab, remove_tab, create_tab_body, remove_tab_body}
use copy_clipboard_app.History.Ingest.{ingest, ingest_body}
use copy_clipboard_app.History.Untouched.{
  IsUntouched, ErrsUntouched, IsUntouched-store, ingest_body-IsUntouched,
}
use copy_clipboard_app.History.Refused.{
  ErrsUntouchedAll, pin_body-IsUntouched, tag_body-IsUntouched, set_title_body-IsUntouched,
  create_tab_body-IsUntouched, remove_tab_body-IsUntouched,
}

-- An operation that edits the history, with what it reads of the world.
pub data Edit : Type 0 where
  edit_ingest : ℕ → Bytes → Candidate → Edit
  edit_pin : Text → Bool → Edit
  edit_tag : Text → Text → Bool → Edit
  edit_title : Text → Option Text → Edit
  edit_create_tab : ℕ → Text → Edit
  edit_remove_tab : Text → Edit

abbrev pub error_of {ℓ} : {A : Type ℓ} → Result A → Option ErrorCode
error_of (ok a) = none
error_of (err c) = some c

module _ {port : Port} where
  abbrev forget_answer : {A : Type 0} → Result A × State port → Option ErrorCode × State port
  forget_answer (r, st) = (error_of r, st)

  -- What an edit does, the wait for a load included: its error, if it has one, and the state.
  unfoldable pub edit : Edit → State port → Option ErrorCode × State port
  edit (edit_ingest now rnd cand) st = forget_answer (ingest now rnd cand st)
  edit (edit_pin id pinned) st = forget_answer (pin id pinned st)
  edit (edit_tag id raw tagged) st = forget_answer (tag id raw tagged st)
  edit (edit_title id raw) st = forget_answer (set_title id raw st)
  edit (edit_create_tab now raw) st = forget_answer (create_tab now raw st)
  edit (edit_remove_tab raw) st = forget_answer (remove_tab raw st)

  abbrev pub waited_for : Option ℕ → State port → State port
  waited_for none st = st
  waited_for (some epoch) st = (finish_load epoch st).1

  -- The state when the wait for a load is over: that which the load in progress leaves, with the items
  -- that it restored or with its error, or this one if there is none.
  abbrev pub waited : State port → State port
  waited st = waited_for st.loading st

  go_on-IsUntouched :
      {A : Type 0} (op : State port → Result A × State port) (x : Result ℕ × State port)
      → ((w : State port) → ErrsUntouched w (op w))
      → ErrsUntouched x.1 (go_on op x)
  go_on-IsUntouched op (ok n, w) f = f w
  go_on-IsUntouched op (err d, w) f = λ c h. IsUntouched-store w w.store

  wait_for-IsUntouched :
      {A : Type 0} (o : Option ℕ) (op : State port → Result A × State port) (st : State port)
      → ((w : State port) → ErrsUntouched w (op w))
      → ErrsUntouched (waited_for o st) (wait_for o op st)
  wait_for-IsUntouched none op st f = f st
  wait_for-IsUntouched (some epoch) op st f = go_on-IsUntouched op (finish_load epoch st) f

  forgotten :
      {A : Type 0} (st : State port) (x : Result A × State port) (c : ErrorCode)
      → ErrsUntouched st x
      → (forget_answer x).0 ≡ some c
      → IsUntouched st (forget_answer x).1
  forgotten st (ok a, w) c f h = cc
  forgotten st (err d, w) c f h = f d refl

  after_load-IsUntouched :
      {A : Type 0} (op : State port → Result A × State port) (st : State port) (c : ErrorCode)
      → ErrsUntouchedAll op
      → (forget_answer (after_load op st)).0 ≡ some c
      → IsUntouched (waited st) (forget_answer (after_load op st)).1
  unfolding after_load
  after_load-IsUntouched op st c f =
      forgotten (waited st) (wait_for st.loading op st) c (wait_for-IsUntouched st.loading op st f)

  -- An ingest, pin, tag, title, or creation or removal of a tab that answers an error has itself
  -- changed nothing in memory. If no load is in progress, the state after it is the state before it,
  -- but for the state of the store. If one is, the operation waits for it, and the state after it is
  -- that which the load leaves, but for the state of the store: also when the error is that of the
  -- load, which the operation then answers.
  pub edit-IsUntouched :
      (e : Edit) (st : State port) (c : ErrorCode)
      → (edit e st).0 ≡ some c
      → IsUntouched (waited st) (edit e st).1
  unfolding edit ingest pin tag set_title create_tab remove_tab
  edit-IsUntouched (edit_ingest now rnd cand) st c =
      after_load-IsUntouched (ingest_body now rnd cand) st c (ingest_body-IsUntouched now rnd cand)
  edit-IsUntouched (edit_pin id pinned) st c =
      after_load-IsUntouched (pin_body id pinned) st c (pin_body-IsUntouched id pinned)
  edit-IsUntouched (edit_tag id raw tagged) st c =
      after_load-IsUntouched (tag_body id raw tagged) st c (tag_body-IsUntouched id raw tagged)
  edit-IsUntouched (edit_title id raw) st c =
      after_load-IsUntouched (set_title_body id raw) st c (set_title_body-IsUntouched id raw)
  edit-IsUntouched (edit_create_tab now raw) st c =
      after_load-IsUntouched (create_tab_body now raw) st c (create_tab_body-IsUntouched now raw)
  edit-IsUntouched (edit_remove_tab raw) st c =
      after_load-IsUntouched (remove_tab_body raw) st c (remove_tab_body-IsUntouched raw)
