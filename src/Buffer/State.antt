-- ===== src/Buffer/State.antt =====
-- struct evbuffer of LibEvent/Source/evbuffer-internal.h, and the helpers of
-- LibEvent/Source/buffer.c that edit its chunks.
-- `first` and `last` are the ends of `chains`. The pointer-to-pointer last_with_datap is the
-- index `lwd` of the chunk it leads to, which is the length of `chains` where it leads to NULL.
-- `log` holds the callbacks made so far. Locks are left out: a call runs under the buffer's lock.
pub mod Insert
use practising.Base.{
  ℕ, zero, suc, ◌+◌, ◌-◌, ◌≤◌, ◌≡◌, ◌⊎◌, Bool, true, false, not, ◌&&◌, ◌||◌, Option, none, some,
  List, [], ◌∷◌, ◌++◌, length, take, drop, All, ◌==◌, leb, if◌then◌else◌,
}
use practising.Buffer.Chain.{Chain, off, pinned, chain_new, ChainFits, size_max}

-- struct evbuffer_cb_entry: `target` stands for the function and its argument.
pub record CbEntry : Type 0 where
  pub target : ℕ
  pub enabled : Bool
  pub nodefer : Bool

-- struct evbuffer_cb_info, with the callback that got it.
pub record CbCall : Type 0 where
  pub target : ℕ
  pub orig_size : ℕ
  pub n_added : ℕ
  pub n_deleted : ℕ

pub record Evbuffer : Type 0 where
  pub chains : List Chain
  pub lwd : ℕ
  pub total_len : ℕ
  pub n_add_for_cb : ℕ
  pub n_del_for_cb : ℕ
  pub freeze_start : Bool
  pub freeze_end : Bool
  pub deferred_cbs : Bool
  pub queued : Bool
  pub refcnt : ℕ
  pub callbacks : List CbEntry
  pub log : List CbCall

-- evbuffer_new
unfoldable pub evbuffer_new : (ℕ → Bool) → ℕ → Option Evbuffer
evbuffer_new malloc sizeof_evbuffer = if malloc sizeof_evbuffer then some fresh else none
  where
    fresh : Evbuffer
    fresh = record {
      chains = [];
      lwd = 0;
      total_len = 0;
      n_add_for_cb = 0;
      n_del_for_cb = 0;
      freeze_start = false;
      freeze_end = false;
      deferred_cbs = false;
      queued = false;
      refcnt = 1;
      callbacks = [];
      log = [];
    }

-- evbuffer_freeze and evbuffer_unfreeze
pub freeze : Evbuffer → Bool → Evbuffer
freeze b start = if start then record b { freeze_start = true } else record b { freeze_end = true }

pub unfreeze : Evbuffer → Bool → Evbuffer
unfreeze b start =
    if start then record b { freeze_start = false } else record b { freeze_end = false }

-- evbuffer_get_length
pub get_length : Evbuffer → ℕ
get_length b = b.total_len

-- evbuffer_get_contiguous_space
pub get_contiguous_space : Evbuffer → ℕ
get_contiguous_space b = elim b.chains [ [] ↦ 0 | c ∷ cs ↦ off c ]

-- ZERO_CHAIN
abbrev pub zero_chain : Evbuffer → Evbuffer
zero_chain b = record b { chains = []; lwd = 0; total_len = 0 }

-- `(*ch)->off != 0 || CHAIN_PINNED(*ch)`: a chunk that is no victim.
abbrev pub is_kept : Chain → Bool
is_kept c = not (off c == 0) || pinned c

-- The chunks up to the first victim, and whether there is a victim.
unfoldable pub before_victim : List Chain → List Chain × Bool
before_victim [] = ([], false)
before_victim (c ∷ cs) =
    let (kept, found) = before_victim cs in if is_kept c then (c ∷ kept, found) else ([], true)

-- evbuffer_chain_insert. A victim and all behind it are freed, whatever they hold: the assertion
-- that they are empty is compiled out of a release build.
unfoldable pub chain_insert : Evbuffer → Chain → Evbuffer
unfolding before_victim
chain_insert b c = elim (drop b.lwd b.chains) [
  | [] ↦ record b { chains = c ∷ []; total_len = b.total_len + off c }
  | d ∷ ds ↦
      let (kept, victim) = before_victim (d ∷ ds) in
      let front = take b.lwd b.chains in
      if victim
      then record b { chains = front ++ (kept ++ (c ∷ [])); total_len = b.total_len + off c }
      else record b {
        chains = b.chains ++ (c ∷ []);
        lwd = if off c == 0 then b.lwd else length b.chains;
        total_len = b.total_len + off c;
      }
]

-- What the buffer holds.
abbrev pub bytes_of : List Chain → List ℕ
bytes_of [] = []
bytes_of (c ∷ cs) = c.bytes ++ bytes_of cs

abbrev pub contents : Evbuffer → List ℕ
contents b = bytes_of b.chains

-- The last chunk, if there is one, is where last_with_datap leads: no spare chunk lies behind it.
abbrev pub LastWithData : ℕ → List Chain → Type 0
LastWithData lwd [] = lwd ≡ 0
LastWithData lwd (c ∷ cs) = lwd ≡ length cs

-- The buffer's chunks hold `bytes`, and its other fields agree with that.
pub record IsLaid (b : Evbuffer) (bytes : List ℕ) : Type 0 where
  pub holds : contents b ≡ bytes
  pub counted : b.total_len ≡ length bytes
  pub fits : All ChainFits b.chains
  pub tight : LastWithData b.lwd b.chains

pub record IsValid (b : Evbuffer) : Type 0 where
  pub laid : IsLaid b (contents b)
  pub bounded : b.total_len ≤ size_max
