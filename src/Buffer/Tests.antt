-- ===== src/Buffer/Tests.antt =====
-- Runs of the evbuffer functions on small buffers, and the theorems at concrete inputs.
use practising.Base.{
  ℕ, ◌^◌, ◌<◌, ◌≡◌, refl, Bool, true, false, some, List, [], ◌∷◌, ◌++◌, length, take, drop, arith,
  if◌then◌else◌,
}
use practising.Buffer.Chain.{Chain}
use practising.Buffer.State.{Evbuffer, CbEntry, contents, IsValid}
use practising.Buffer.Add.{evbuffer_add}
use practising.Buffer.Add.Appends.{evbuffer_add_appends}
use practising.Buffer.Prepend.{evbuffer_prepend}
use practising.Buffer.Prepend.Puts.{evbuffer_prepend_puts, left_in_front}
use practising.Buffer.Prepend.Untold.{evbuffer_prepend_untold}
use practising.Base.Int.{pos}
use practising.Buffer.Drain.{evbuffer_drain, evbuffer_copyout, to_int, evbuffer_remove}
use practising.Buffer.Drain.Takes.{evbuffer_drain_takes}
use practising.Buffer.Drain.Reads.{evbuffer_copyout_reads, evbuffer_remove_splits}

abbrev plenty : ℕ → Bool
plenty n = true

abbrev chunk : ℕ → ℕ → List ℕ → Chain
chunk buffer_len misalign bytes = record {
  buffer_len = buffer_len;
  misalign = misalign;
  bytes = bytes;
  immutable = false;
  pinned_r = false;
  pinned_w = false;
}

abbrev watcher : CbEntry
watcher = record { target = 7; enabled = true; nodefer = false }

-- Two chunks, the second with one free byte, watched by one callback.
abbrev sample : Evbuffer
sample = record {
  chains = chunk 4 0 (1 ∷ 2 ∷ 3 ∷ 4 ∷ []) ∷ chunk 4 1 (5 ∷ 6 ∷ []) ∷ [];
  lwd = 1;
  total_len = 6;
  n_add_for_cb = 0;
  n_del_for_cb = 0;
  freeze_start = false;
  freeze_end = false;
  deferred_cbs = false;
  queued = false;
  refcnt = 1;
  callbacks = watcher ∷ [];
  log = [];
}

sample-IsValid : IsValid sample
sample-IsValid = record {
  laid = record {
    holds = refl;
    counted = refl;
    fits = (record { fits = omega arith }, (record { fits = omega arith }, tt));
    tight = refl;
  };
  bounded = omega arith;
}

evbuffer_add_appends_example :
    IsValid (evbuffer_add plenty sample (7 ∷ 8 ∷ [])).1
    × (contents (evbuffer_add plenty sample (7 ∷ 8 ∷ [])).1 ≡ (
        if (evbuffer_add plenty sample (7 ∷ 8 ∷ [])).0
        then contents sample ++ (7 ∷ 8 ∷ [])
        else contents sample))
evbuffer_add_appends_example =
    evbuffer_add_appends plenty sample (7 ∷ 8 ∷ []) sample-IsValid (omega arith)

evbuffer_prepend_puts_example :
    IsValid (evbuffer_prepend plenty sample (7 ∷ 8 ∷ [])).1
    × (contents (evbuffer_prepend plenty sample (7 ∷ 8 ∷ [])).1 ≡ (
        if (evbuffer_prepend plenty sample (7 ∷ 8 ∷ [])).0
        then 7 ∷ 8 ∷ contents sample
        else left_in_front sample (7 ∷ 8 ∷ []) ++ contents sample))
evbuffer_prepend_puts_example = evbuffer_prepend_puts plenty sample (7 ∷ 8 ∷ []) sample-IsValid

evbuffer_prepend_untold_example : (evbuffer_prepend plenty sample (9 ∷ [])).1.log ≡ []
evbuffer_prepend_untold_example =
    evbuffer_prepend_untold plenty sample (9 ∷ []) (chunk 4 0 (1 ∷ 2 ∷ 3 ∷ 4 ∷ []))
      (chunk 4 1 (5 ∷ 6 ∷ []) ∷ []) refl (omega arith) refl (omega arith) refl refl

evbuffer_drain_takes_example :
    (b' : Evbuffer) × (evbuffer_drain sample 5 ≡ some (true, b'))
    × IsValid b'
    × (contents b' ≡ 6 ∷ [])
evbuffer_drain_takes_example = evbuffer_drain_takes sample 5 sample-IsValid (refl, tt) refl

copies_five : evbuffer_copyout sample 5 ≡ some (some (1 ∷ 2 ∷ 3 ∷ 4 ∷ 5 ∷ []))
copies_five = evbuffer_copyout_reads sample 5 sample-IsValid refl

evbuffer_remove_splits_example :
    let bytes = take 3 (contents sample) in
    (b' : Evbuffer) × (evbuffer_remove sample 3 ≡ some (to_int (length bytes), bytes, b'))
    × (length bytes < 2 ^ 31 → to_int (length bytes) ≡ pos (length bytes))
    × IsValid b'
    × (contents b' ≡ drop 3 (contents sample))
evbuffer_remove_splits_example = evbuffer_remove_splits sample 3 sample-IsValid (refl, tt) refl
