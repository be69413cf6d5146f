-- ===== src/EventBase/Priorities.antt =====
-- What it is to serve the queues of event.c in the order of their priorities.
use mathlib.Core.Path.{subst}
use practising.Base.{
  ℕ, zero, suc, ◌+◌, ◌≤◌, ◌<◌, ◌≡◌, refl, sym, ap, ap₂, ◌∙◌, Bool, ◌&&◌, Option, List, [], ◌∷◌,
  ◌++◌, ltb, leb, if◌then◌else◌, arith,
}
use practising.MinHeap.{put}
use practising.EvMap.Backend.{Eventop}
use practising.EventBase.{Assigned, EventBase, Fired}
use practising.EventBase.Ready.{IsProgram, Ready}
use practising.EventBase.Queues.{outer, IsSafe, IsCalm, Calls, done, call}

-- The queues of `k` priorities from `i` on, one behind the other.
abbrev pub up_to : (ℕ → List ℕ) → ℕ → ℕ → List ℕ
up_to queues i zero = []
up_to queues i (suc k) = queues i ++ up_to queues (i + 1) k

pub outer-append :
    (ev : ℕ → Assigned) (xs ys : List ℕ) → outer ev (xs ++ ys) ≡ outer ev xs + outer ev ys
outer-append ev [] ys = omega arith
outer-append ev (x ∷ xs) ys = ground (arith, outer-append ev xs ys)

pub up_to-same :
    (f g : ℕ → List ℕ) (i k : ℕ) → ((p : ℕ) → i ≤ p → f p ≡ g p) → up_to f i k ≡ up_to g i k
up_to-same f g i zero h = refl
up_to-same f g i (suc k) h =
    ap₂ ◌++◌ (h i (omega arith)) (up_to-same f g (i + 1) k (λ p le. h p (omega arith)))

module _ (ev : ℕ → Assigned) (op : Eventop) (limit : ℕ) {W : Type 0}
    (callback : W × EventBase op.State → ℕ → Fired → W × EventBase op.State) where
  pub Calls-append :
      (w1 w w' : W) (q q' : List ℕ)
      → Calls ev op limit callback w1 w q
      → Calls ev op limit callback w' w1 q'
      → Calls ev op limit callback w' w (q ++ q')
  Calls-append w1 _ w' _ q' (done w e) h = subst (λ v. Calls ev op limit callback w' v q') (sym e) h
  Calls-append w1 _ w' _ q' (call w b e q k out rest) h =
      call w b e (q ++ q') k out (Calls-append w1 _ w' q q' rest h)

  pub with_priority-Ready :
      (b : EventBase op.State) (p : Option ℕ)
      → Ready ev op limit b
      → Ready ev op limit (record b { event_running_priority = p })
  with_priority-Ready b p k = record {
    valid = record {
      heap = k.valid.heap;
      timed = k.valid.timed;
      activated = k.valid.activated;
      listed = k.valid.listed;
      maps = k.valid.maps;
      genuine = k.valid.genuine;
      wants = k.valid.wants;
      waits = k.valid.waits;
    };
    known = k.known;
    times = k.times;
    gaps = k.gaps;
    linked = k.linked;
  }

  -- What is done with the priorities from `i` on, of which `n` are left: the first `k` are served.
  pub record Served (w : W) (b : EventBase op.State) (i n c : ℕ) (w' : W) (r : EventBase op.State)
      : Type 0 where
    pub k : ℕ
    pub few : k ≤ n
    pub calls : Calls ev op limit callback w' w (up_to b.activequeues i k)
    pub ready : Ready ev op limit r
    pub queues :
        (p : ℕ) → r.activequeues p ≡ (if leb i p && ltb p (i + k) then [] else b.activequeues p)
    pub count : c ≡ outer ev (up_to b.activequeues i k)
    pub all : c ≡ 0 → k ≡ n
    pub first : (m : ℕ) → m + 1 < k → outer ev (b.activequeues (i + m)) ≡ 0

  module _ (realloc : ℕ → Bool) (calloc debug : Bool) (program : IsProgram ev op limit)
      (safe : IsSafe ev op limit callback) (calm : IsCalm ev op limit callback) where
    -- One more priority in front, which has no event that is not internal.
    pub more-Served :
        (w w1 w' : W) (b b1 r : EventBase op.State) (i n c : ℕ)
        → Calls ev op limit callback w1 w (b.activequeues i)
        → outer ev (b.activequeues i) ≡ 0
        → b1.activequeues ≡ put b.activequeues i []
        → Served w1 b1 (i + 1) n c w' r
        → Served w b i (suc n) c w' r
    more-Served w w1 w' b b1 r i n c calls quiet emptied s = record {
      k = suc s.k;
      few = omega (arith, s.few);
      calls =
          Calls-append w1 w w' (b.activequeues i) _ calls
            (subst (λ q. Calls ev op limit callback w' w1 q) same s.calls);
      ready = s.ready;
      queues = λ p.
          s.queues p
          ∙ ap (λ f. if leb (i + 1) p && ltb p (i + 1 + s.k) then [] else f p) emptied
          ∙ split p;
      count =
          s.count
          ∙ ap (outer ev) same
          ∙ omega
              (arith, quiet, outer-append ev (b.activequeues i) (up_to b.activequeues (i + 1) s.k));
      all = λ z. ap suc (s.all z);
      first = first;
    }
      where
        same : up_to b1.activequeues (i + 1) s.k ≡ up_to b.activequeues (i + 1) s.k
        same =
            up_to-same b1.activequeues b.activequeues (i + 1) s.k
              (λ p le. ap (λ f. f p) emptied ∙ ground arith)

        split :
            (p : ℕ)
            → (if leb (i + 1) p && ltb p (i + 1 + s.k) then [] else put b.activequeues i [] p)
              ≡ (if leb i p && ltb p (i + suc s.k) then [] else b.activequeues p)
        split p = ground arith

        first : (m : ℕ) → m + 1 < suc s.k → outer ev (b.activequeues (i + m)) ≡ 0
        first zero h = ap (λ (p : ℕ). outer ev (b.activequeues p)) (omega arith) ∙ quiet
        first (suc m) h =
            let shifted : i + suc m ≡ i + 1 + m = omega arith in
            let other : b1.activequeues (i + 1 + m) ≡ b.activequeues (i + 1 + m) =
              ap (λ f. f (i + 1 + m)) emptied ∙ ground arith in
            rw (shifted, ← other) (s.first m (omega (arith, h)))
