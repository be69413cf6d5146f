-- ===== src/Buffer/Callbacks.antt =====
-- The callbacks of an evbuffer: evbuffer_run_callbacks and evbuffer_invoke_callbacks of
-- LibEvent/Source/buffer.c. A callback is a user's function: its call is recorded, with the
-- numbers it is given, and it is taken not to change the buffer that it watches.
pub mod Frame
use practising.Base.{
  ℕ, ◌+◌, ◌-◌, Bool, true, false, not, ◌&&◌, ◌||◌, List, [], ◌∷◌, ◌++◌, ◌==◌, if◌then◌else◌,
}
use practising.Buffer.State.{Evbuffer, CbEntry, CbCall}

-- The `mask` and `masked_val` test of the loop, for each way to run it.
selected : Bool → Bool → CbEntry → Bool
selected running_deferred deferred_cbs e =
    if running_deferred
    then e.enabled && not e.nodefer
    else if deferred_cbs
    then e.enabled && e.nodefer
    else e.enabled

calls : Bool → Bool → CbCall → List CbEntry → List CbCall
calls running_deferred deferred_cbs info [] = []
calls running_deferred deferred_cbs info (e ∷ es) =
    let rest = calls running_deferred deferred_cbs info es in
    if selected running_deferred deferred_cbs e
    then record info { target = e.target } ∷ rest
    else rest

-- evbuffer_run_callbacks
unfoldable pub run_callbacks : Evbuffer → Bool → Evbuffer
unfolding calls selected
run_callbacks b running_deferred = elim b.callbacks [
  | [] ↦ record b { n_add_for_cb = 0; n_del_for_cb = 0 }
  | e ∷ es ↦
      if b.n_add_for_cb == 0 && b.n_del_for_cb == 0
      then b
      else let info : CbCall = record {
        target = 0;
        orig_size = b.total_len + b.n_del_for_cb - b.n_add_for_cb;
        n_added = b.n_add_for_cb;
        n_deleted = b.n_del_for_cb;
      } in
        let made = b.log ++ calls running_deferred b.deferred_cbs info (e ∷ es) in
        if not running_deferred && b.deferred_cbs
        then record b { log = made }
        else record b { n_add_for_cb = 0; n_del_for_cb = 0; log = made }
]

-- evbuffer_invoke_callbacks. Scheduling the deferred callback takes a reference to the buffer.
unfoldable pub invoke_callbacks : Evbuffer → Evbuffer
unfolding run_callbacks
invoke_callbacks b = elim b.callbacks [
  | [] ↦ record b { n_add_for_cb = 0; n_del_for_cb = 0 }
  | _ ∷ _ ↦
      if b.deferred_cbs
      then if b.queued
        then b
        else run_callbacks (record b { queued = true; refcnt = b.refcnt + 1 }) false
      else run_callbacks b false
]
