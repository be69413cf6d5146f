-- ===== src/Buffer/Chain.antt =====
-- One chunk of an evbuffer: struct evbuffer_chain of LibEvent/Source/evbuffer-internal.h and its
-- helpers in LibEvent/Source/buffer.c. Sizes are those of a 64-bit Windows build.
-- The `off` stored bytes at `buffer + misalign` are the list `bytes`; what lies around them is
-- never read. Memory-mapped, sendfile and reference chunks are those with `immutable` set.
pub mod Alloc
use practising.Base.{
  ℕ, zero, suc, ◌+◌, ◌-◌, ◌*◌, ◌/◌, ◌^◌, ◌≤◌, Bool, true, false, ◌&&◌, ◌||◌, Option, none, some,
  List, [], length, ltb, leb, if◌then◌else◌,
}

pub record Chain : Type 0 where
  pub buffer_len : ℕ
  pub misalign : ℕ
  pub bytes : List ℕ
  pub immutable : Bool
  pub pinned_r : Bool
  pub pinned_w : Bool

-- EV_SIZE_MAX, EVBUFFER_CHAIN_MAX, EVBUFFER_CHAIN_SIZE and MIN_BUFFER_SIZE.
abbrev pub size_max : ℕ
size_max = 2 ^ 64 - 1

abbrev pub chain_max : ℕ
chain_max = 2 ^ 63 - 1

abbrev pub chain_size : ℕ
chain_size = 48

abbrev pub min_buffer_size : ℕ
min_buffer_size = 1024

abbrev pub max_auto_size : ℕ
max_auto_size = 4096

abbrev pub max_to_realign : ℕ
max_to_realign = 2048

-- chain->off
abbrev pub off : Chain → ℕ
off c = length c.bytes

-- CHAIN_SPACE_LEN
pub space_len : Chain → ℕ
space_len c = if c.immutable then 0 else c.buffer_len - (c.misalign + off c)

-- CHAIN_PINNED
abbrev pub pinned : Chain → Bool
pinned c = c.pinned_r || c.pinned_w

-- `while (to_alloc < size) to_alloc <<= 1;`
unfoldable pub double_up : ℕ → ℕ → ℕ → ℕ
double_up zero to_alloc size = to_alloc
double_up (suc fuel) to_alloc size =
    let rest = double_up fuel (to_alloc * 2) size in if ltb to_alloc size then rest else to_alloc

-- The number of bytes that evbuffer_chain_new asks for; 53 doublings take 1024 past 2 ^ 62.
unfoldable pub alloc_size : ℕ → ℕ
unfolding double_up
alloc_size size = if ltb size (chain_max / 2) then double_up 53 min_buffer_size size else size

-- evbuffer_chain_new; `malloc n` is whether mm_malloc has n bytes to give.
unfoldable pub chain_new : (ℕ → Bool) → ℕ → Option Chain
unfolding alloc_size
chain_new malloc size =
    if ltb (chain_max - chain_size) size then none else if malloc to_alloc then some fresh else none
  where
    to_alloc : ℕ
    to_alloc = alloc_size (size + chain_size)

    fresh : Chain
    fresh = record {
      buffer_len = to_alloc - chain_size;
      misalign = 0;
      bytes = [];
      immutable = false;
      pinned_r = false;
      pinned_w = false;
    }

-- evbuffer_chain_should_realign
pub should_realign : Chain → ℕ → Bool
should_realign c datlen =
    leb datlen (c.buffer_len - off c)
    && ltb (off c) (c.buffer_len / 2)
    && leb (off c) max_to_realign

-- evbuffer_chain_align
pub chain_align : Chain → Chain
chain_align c = record c { misalign = 0 }

-- The stored bytes lie inside the chunk's allocation.
pub record ChainFits (c : Chain) : Type 0 where
  pub fits : c.misalign + off c ≤ c.buffer_len
