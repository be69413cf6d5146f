-- ===== src/Buffer/Callbacks/Frame.antt =====
-- What running the callbacks leaves alone.
use practising.Base.{ℕ, ◌≡◌, List, arith}
use practising.Buffer.State.{Evbuffer, IsLaid}
use practising.Buffer.State.Insert.{same-IsLaid}
use practising.Buffer.Callbacks.{invoke_callbacks}

pub invoke_frame :
    (b : Evbuffer)
    → ((invoke_callbacks b).chains ≡ b.chains)
      × ((invoke_callbacks b).lwd ≡ b.lwd)
      × ((invoke_callbacks b).total_len ≡ b.total_len)
      × ((invoke_callbacks b).freeze_start ≡ b.freeze_start)
      × ((invoke_callbacks b).freeze_end ≡ b.freeze_end)
unfolding invoke_callbacks
invoke_frame b = ground arith

pub invoke-IsLaid :
    (b : Evbuffer) (bytes : List ℕ) → IsLaid b bytes → IsLaid (invoke_callbacks b) bytes
invoke-IsLaid b bytes v =
    let f = invoke_frame b in same-IsLaid b (invoke_callbacks b) bytes f.0 f.1 f.2 v

-- With nothing counted no callback is called.
pub invoke_unchanged :
    (b : Evbuffer) → b.n_add_for_cb ≡ 0 → b.n_del_for_cb ≡ 0 → (invoke_callbacks b).log ≡ b.log
unfolding invoke_callbacks
invoke_unchanged b p q = ground arith
