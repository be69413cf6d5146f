-- ===== src/EventBase/Served.antt =====
-- event_process_active of event.c serves the priorities in their order, up to one with an event that is
-- not internal.
use mathlib.Core.Path.{subst}
use practising.Base.{
  ℕ, zero, suc, ◌⊎◌, ◌+◌, ◌<◌, ◌≡◌, refl, sym, ap, ◌∙◌, Bool, false, none, some, List, [], ◌∷◌,
  append-nil, length, arith, inl, inr,
}
use practising.EvMap.Backend.{Eventop}
use practising.EventBase.{Assigned, EventBase, Fired}
use practising.EventBase.State.{put-same}
use practising.EventBase.Waits.{IsTime}
use practising.EventBase.Process.{counted, process_queue, process_from, event_process_active}
use practising.EventBase.Ready.{IsProgram, Ready}
use practising.EventBase.Queues.{outer, IsSafe, IsCalm, Calls, done, process_queue-Calls}
use practising.EventBase.Priorities.{with_priority-Ready, Served, more-Served}

module _ (ev : ℕ → Assigned) (op : Eventop) (limit : ℕ) {W : Type 0}
    (callback : W × EventBase op.State → ℕ → Fired → W × EventBase op.State) where
  module _ (realloc : ℕ → Bool) (calloc debug : Bool) (program : IsProgram ev op limit)
      (safe : IsSafe ev op limit callback) (calm : IsCalm ev op limit callback) where
    -- A round of the loop: past an empty queue, past a queue of internal events, and up to a served one.
    past_empty :
        (n fuel i : ℕ) (now : ℕ × ℕ) (w : W) (b : EventBase op.State)
        → b.activequeues i ≡ []
        → process_from ev op realloc calloc debug callback (suc n) fuel now i (w, b)
          ≡ process_from ev op realloc calloc debug callback n fuel now (i + 1) (w, b)
    unfolding process_from
    past_empty n fuel i now w b h = rw (h, process_from) refl

    past_internal :
        (n fuel i e c : ℕ) (now : ℕ × ℕ) (q : List ℕ) (w : W) (b : EventBase op.State)
        (s : W × EventBase op.State)
        → b.activequeues i ≡ e ∷ q
        → process_queue ev op realloc calloc debug callback fuel now i 0
            (w, record b { event_running_priority = some i })
          ≡ some (counted c s)
        → c ≡ 0
        → process_from ev op realloc calloc debug callback (suc n) fuel now i (w, b)
          ≡ process_from ev op realloc calloc debug callback n fuel now (i + 1) s
    unfolding process_from
    past_internal n fuel i e c now q w b s h ran quiet = rw (h, process_from, ran, quiet) refl

    up_to_served :
        (n fuel i e c m : ℕ) (now : ℕ × ℕ) (q : List ℕ) (w w1 : W) (b b1 : EventBase op.State)
        → b.activequeues i ≡ e ∷ q
        → process_queue ev op realloc calloc debug callback fuel now i 0
            (w, record b { event_running_priority = some i })
          ≡ some (counted c (w1, b1))
        → c ≡ suc m
        → process_from ev op realloc calloc debug callback (suc n) fuel now i (w, b)
          ≡ some (counted (suc m) (w1, record b1 { event_running_priority = none }))
    unfolding process_from
    up_to_served n fuel i e c m now q w w1 b b1 h ran there = rw (h, process_from, ran, there) refl

    -- How the loop over `n` priorities from `i` on ends.
    abbrev Serves : ℕ → ℕ → ℕ × ℕ → ℕ → W → EventBase op.State → Type 0
    Serves n fuel now i w b =
        (c : ℕ) × (w' : W) × (r : EventBase op.State) × (process_from ev op realloc calloc debug
            callback n fuel now i (w, b)
          ≡ some (counted c (w', r)))
        × Served ev op limit callback w b i n c w' r

    abbrev AllServe : ℕ → ℕ → ℕ × ℕ → ℕ → Type 0
    AllServe n fuel now i =
        (w : W) (b : EventBase op.State)
        → ((p : ℕ) → length (b.activequeues p) < fuel)
        → Ready ev op limit b
        → b.event_break ≡ false
        → b.event_continue ≡ false
        → Serves n fuel now i w b

    serve_queue :
        (n fuel i : ℕ) (now : ℕ × ℕ) (q : List ℕ) (w : W) (b : EventBase op.State)
        → AllServe n fuel now (i + 1)
        → b.activequeues i ≡ q
        → ((p : ℕ) → length (b.activequeues p) < fuel)
        → IsTime now
        → Ready ev op limit b
        → b.event_break ≡ false
        → b.event_continue ≡ false
        → Serves (suc n) fuel now i w b
    serve_queue n fuel i now [] w b later h enough in_now k b0 c0 =
        let (c, w', r, ran, s) = later w b enough k b0 c0 in
        (
          c,
          w',
          r,
          past_empty n fuel i now w b h ∙ ran,
          more-Served ev op limit callback realloc calloc debug program safe calm w w w' b b r i n c
              (subst (Calls ev op limit callback w w) (sym h) (done w refl)) (ap (outer ev) h)
              (sym (put-same b.activequeues i h)) s,
        )
    serve_queue n fuel i now (e ∷ q) w b later h enough in_now k b0 c0 =
        let (w1, b1, ran, calls, k1, emptied, b2, c2) =
          process_queue-Calls ev op limit callback realloc calloc debug program safe calm (e ∷ q)
            fuel now i 0 w (record b { event_running_priority = some i })
            (omega (arith, enough i, ap length h)) in_now
            (with_priority-Ready ev op limit callback b (some i) k) h b0 c0 in
        let calls' = subst (Calls ev op limit callback w1 w) (sym h) calls in
        elim (counted_or_none (outer ev (e ∷ q))) [
          | inl quiet ↦
              let shorter : (p : ℕ) → length (b1.activequeues p) < fuel =
                λ p. ground (arith, ap (λ f. length (f p)) emptied, enough p) in
              let (c, w', r, ran', s) = later w1 b1 shorter k1 b2 c2 in
              (
                c,
                w',
                r,
                past_internal n fuel i e _ now q w b (w1, b1) h ran (omega (arith, quiet)) ∙ ran',
                more-Served ev op limit callback realloc calloc debug program safe calm w w1 w' b b1
                    r i n c calls' (ap (outer ev) h ∙ quiet) emptied s,
              )
          | inr (c, some_there) ↦ (
            suc c,
            w1,
            record b1 { event_running_priority = none },
            up_to_served n fuel i e _ c now q w w1 b b1 h ran (omega (arith, some_there)),
            record {
              k = 1;
              few = omega arith;
              calls =
                  subst (Calls ev op limit callback w1 w) (sym (append-nil (b.activequeues i)))
                    calls';
              ready = with_priority-Ready ev op limit callback b1 none k1;
              queues = λ p. ap (λ f. f p) emptied ∙ ground arith;
              count = sym (ap (outer ev) (append-nil (b.activequeues i) ∙ h) ∙ some_there);
              all = λ z. absurd (omega (arith, z));
              first = λ m h. absurd (omega (arith, h));
            },
          )
        ]
      where
        counted_or_none : (c : ℕ) → (c ≡ 0) ⊎ ((m : ℕ) × (c ≡ suc m))
        counted_or_none zero = inl refl
        counted_or_none (suc m) = inr (m, refl)

    -- The loop over `n` priorities from `i` on, each with a queue shorter than the rounds given.
    process_from-Served :
        (n fuel i : ℕ) (now : ℕ × ℕ) (w : W) (b : EventBase op.State)
        → ((p : ℕ) → length (b.activequeues p) < fuel)
        → IsTime now
        → Ready ev op limit b
        → b.event_break ≡ false
        → b.event_continue ≡ false
        → (c : ℕ) × (w' : W) × (r : EventBase op.State) × (process_from ev op realloc calloc debug
              callback n fuel now i
              (w, b)
            ≡ some (counted c (w', r)))
          × Served ev op limit callback w b i n c w' r
    unfolding process_from
    process_from-Served zero fuel i now w b enough in_now k b0 c0 = (
      0,
      w,
      record b { event_running_priority = none },
      refl,
      record {
        k = 0;
        few = omega arith;
        calls = done w refl;
        ready = with_priority-Ready ev op limit callback b none k;
        queues = λ p. ground arith;
        count = refl;
        all = λ z. refl;
        first = λ m h. absurd (omega (arith, h));
      },
    )
    process_from-Served (suc n) fuel i now w b enough in_now k b0 c0 =
        serve_queue n fuel i now (b.activequeues i) w b
          (λ w1 b1 enough1 k1 b1' c1'.
            process_from-Served n fuel (i + 1) now w1 b1 enough1 in_now k1 b1' c1')
          refl enough in_now k b0 c0

    -- event_process_active with `n` priorities, on a back end that refuses no delete, with callbacks that
    -- keep a base fit for the loop, leave the active queues as they are, so activate and delete no event in
    -- them, and stop nothing. From a base fit for the loop, with no stop asked for, whose queues are shorter
    -- than the rounds given, it ends, and its count is that of the events run that are not internal. It served the first `k` priorities: their callbacks ran in the order of
    -- the priorities, and of the events in each queue, these queues are empty and the others as before.
    -- Before the last of the `k` there were internal events only, and `k` is `n` if the count is 0.
    pub event_process_active-Served :
        (n fuel : ℕ) (now : ℕ × ℕ) (w : W) (b : EventBase op.State)
        → ((p : ℕ) → length (b.activequeues p) < fuel)
        → IsTime now
        → Ready ev op limit b
        → b.event_break ≡ false
        → b.event_continue ≡ false
        → (c : ℕ) × (w' : W) × (r : EventBase op.State) × (event_process_active ev op realloc calloc
              debug callback n fuel now
              (w, b)
            ≡ some (counted c (w', r)))
          × Served ev op limit callback w b 0 n c w' r
    unfolding event_process_active
    event_process_active-Served n fuel now w b enough in_now k b0 c0 =
        process_from-Served n fuel 0 now w b enough in_now k b0 c0
