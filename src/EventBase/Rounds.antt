-- ===== src/EventBase/Rounds.antt =====
-- What a round of the loop of event.c does to its base before it calls callbacks.
use practising.Base.{
  ℕ, ◌≡◌, refl, sym, ap, ◌∙◌, Bool, true, not, ◌&&◌, ◌||◌, Option, none, some, List, [], ◌∷◌, arith,
  Bool-cases, inl, inr, All,
}
use practising.EvMap.Backend.{Events, Eventop}
use practising.EventBase.{Assigned, EventBase, Fired}
use practising.EventBase.Calls.{timeout_process}
use practising.EventBase.Timeouts.{timeout_process-Fires}
use practising.EventBase.Waits.{IsTime, Next, unknown, forever, wait, Ends, timeout_next-Ends}
use practising.EventBase.Actives.{evmap_io_active-Reports}
use practising.EventBase.Linked.{IsLinked-same}
use practising.EventBase.Ready.{IsProgram, Ready}
use practising.EventBase.Queues.{IsSafe}
use practising.EventBase.Loop.{
  LoopFlags, LoopRound, next, within, done, Looped, looping, returned, has_active_callbacks, tv_p,
  activate_reports, wait_time, gettime,
}

module _ (ev : ℕ → Assigned) (op : Eventop) (limit : ℕ) where
  pub with_flags-Ready :
      (b : EventBase op.State) (continue stop term loop : Bool)
      → Ready ev op limit b
      → Ready ev op limit (record b {
        event_continue = continue;
        event_break = stop;
        event_gotterm = term;
        running_loop = loop;
      })
  with_flags-Ready b continue stop term loop k = record {
    valid = record {
      heap = k.valid.heap;
      timed = k.valid.timed;
      activated = k.valid.activated;
      listed = k.valid.listed;
      maps = k.valid.maps;
      genuine = k.valid.genuine;
      wants = k.valid.wants;
      waits = k.valid.waits;
    };
    known = k.known;
    times = k.times;
    gaps = k.gaps;
    linked = k.linked;
  }

  -- The back end waits for the same in another state.
  abbrev pub WaitsAlike : op.State → op.State → Type 0
  WaitsAlike s t =
      op.IsReady t × ((j : ℕ) → (op.reads t j ≡ op.reads s j) × (op.writes t j ≡ op.writes s j))

  pub with_backend-Ready :
      (b : EventBase op.State) (s : op.State)
      → WaitsAlike b.io.backend s
      → Ready ev op limit b
      → Ready ev op limit (record b { io = record b.io { backend = s } })
  with_backend-Ready b s (ready, waits) k = record {
    valid = record {
      heap = k.valid.heap;
      timed = k.valid.timed;
      activated = k.valid.activated;
      listed = k.valid.listed;
      maps = record {
        slots = k.valid.maps.slots;
        ready = ready;
        reads = λ j. (waits j).0 ∙ k.valid.maps.reads j;
        writes = λ j. (waits j).1 ∙ k.valid.maps.writes j;
      };
      genuine = k.valid.genuine;
      wants = k.valid.wants;
      waits = k.valid.waits;
    };
    known = k.known;
    times = k.times;
    gaps = k.gaps;
    linked = k.linked;
  }

  -- Dispatch reports descriptors that the back end waits for.
  abbrev pub AllWaited : op.State → Option (List (ℕ × Events)) → Type 0
  AllWaited s none = Unit
  AllWaited s (some reports) = All (λ r. (op.reads s r.0 || op.writes s r.0) ≡ true) reports

  pub activate_reports-Ready :
      (realloc : ℕ → Bool) (reports : List (ℕ × Events)) (b : EventBase op.State)
      → AllWaited b.io.backend (some reports)
      → Ready ev op limit b
      → (r : EventBase op.State) × (activate_reports ev op realloc reports b ≡ some r)
        × Ready ev op limit r
  unfolding activate_reports
  activate_reports-Ready realloc [] b waited k = (b, refl, k)
  activate_reports-Ready realloc ((fd, events) ∷ reports) b (waited, others) k =
      let (m, active, s) = evmap_io_active-Reports ev op realloc events b fd k.valid waited in
      let (r, looped, ready) = activate_reports-Ready realloc reports m (rw (s.io) others) (record {
        valid = s.valid;
        known = λ x on. k.known x (ap (λ f. f x) (sym s.timeout) ∙ on);
        times = λ x. rw (s.times) (k.times x);
        gaps = λ x. rw (s.gaps) (k.gaps x);
        linked = IsLinked-same ev b m s.inserted s.io k.linked;
      }) in
      (r, rw active looped, ready)

  pub timeout_process-Ready :
      (realloc : ℕ → Bool) (now : ℕ × ℕ) (b : EventBase op.State)
      → IsProgram ev op limit
      → Ready ev op limit b
      → (r : EventBase op.State) × (timeout_process ev op realloc now b ≡ some r)
        × Ready ev op limit r
  timeout_process-Ready realloc now b program k =
      let (r, ran, f) = timeout_process-Fires ev op realloc now b k.valid in
      (
        r,
        ran,
        record {
          valid = f.valid;
          known = λ x on. k.known x (ground (arith, f.timeout x, on));
          times = λ x. rw f.times (k.times x);
          gaps = λ x. rw f.gaps (k.gaps x);
          linked = f.linked program.dels k.linked;
        },
      )

  -- What the loop relies on: a clock with times of fewer than 1000000 microseconds, and a dispatch that
  -- leaves what the back end waits for, and reports descriptors that it waits for.
  pub record IsPolling {W : Type 0} (clock : W → ℕ × ℕ)
      (dispatch : W → op.State → Option (ℕ × ℕ) → W × op.State × Option (List (ℕ × Events)))
      : Type 0 where
    pub times : (w : W) → IsTime (clock w)
    pub waits :
        (w : W) (s : op.State) (tv : Option (ℕ × ℕ))
        → op.IsReady s
        → WaitsAlike s (dispatch w s tv).1
    pub reports :
        (w : W) (s : op.State) (tv : Option (ℕ × ℕ))
        → op.IsReady s
        → AllWaited (dispatch w s tv).1 (dispatch w s tv).2

  module _ {W : Type 0} where
    -- No round failed an assertion, the base is fit for the loop, and the cached time is a time.
    abbrev pub IsRound : Option (LoopRound (W × EventBase op.State)) → Type 0
    IsRound none = ⊥
    IsRound (some (next now s)) = IsTime now × Ready ev op limit s.1
    IsRound (some (within s)) = Ready ev op limit s.1
    IsRound (some (done result s)) = Ready ev op limit s.1

    -- The loop failed no assertion, and its base is fit for the loop, whether it has returned or not. Once it
    -- has returned, running_loop is `loop`.
    abbrev pub IsLooped : Bool → Option (Looped (W × EventBase op.State)) → Type 0
    IsLooped loop none = ⊥
    IsLooped loop (some (looping s)) = Ready ev op limit s.1
    IsLooped loop (some (returned result s)) = Ready ev op limit s.1 × (s.1.running_loop ≡ loop)

  module _ (realloc : ℕ → Bool) (calloc debug : Bool) {W : Type 0}
      (callback : W × EventBase op.State → ℕ → Fired → W × EventBase op.State) (clock : W → ℕ × ℕ)
      (dispatch : W → op.State → Option (ℕ × ℕ) → W × op.State × Option (List (ℕ × Events)))
      (program : IsProgram ev op limit) (safe : IsSafe ev op limit callback)
      (polling : IsPolling clock dispatch) where
    abbrev pub IsCached : Option (ℕ × ℕ) → Type 0
    IsCached none = Unit
    IsCached (some now) = IsTime now

    pub wait_time-some :
        (flags : LoopFlags) (tv_cache : Option (ℕ × ℕ)) (w : W) (b : EventBase op.State)
        → IsCached tv_cache
        → Ready ev op limit b
        → (tv : Option (ℕ × ℕ)) × (wait_time ev op realloc calloc debug callback clock dispatch
              flags tv_cache w b
            ≡ some tv)
    unfolding wait_time tv_p gettime
    wait_time-some flags tv_cache w b cached k =
        elim (Bool-cases (not (has_active_callbacks b) && not flags.nonblock)) [
          | inl waits ↦
              let (r, asked, ends) =
                timeout_next-Ends ev op b
                  (gettime ev op realloc calloc debug callback clock dispatch tv_cache w) k.valid
                  (is_time tv_cache cached) (k.times (b.timeheap.p 0)) in
              let (tv, known) = at r ends in (tv, rw (waits, asked) known)
          | inr polls ↦ (some (0, 0), rw polls refl)
        ]
      where
        is_time :
            (c : Option (ℕ × ℕ))
            → IsCached c
            → IsTime (gettime ev op realloc calloc debug callback clock dispatch c w)
        is_time none h = polling.times w
        is_time (some t) h = h

        at :
            (r : Next)
            → Ends b (gettime ev op realloc calloc debug callback clock dispatch tv_cache w) r
            → (tv : Option (ℕ × ℕ)) × (tv_p r ≡ some tv)
        at unknown h = absurd h
        at forever h = (none, refl)
        at (wait tv) h = (some tv, refl)
