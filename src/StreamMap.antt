-- ===== src/StreamMap.antt =====
-- The open-addressing map from a GPU stream to an index, src/ds_stream_map.h.
--
-- The entry array is a list. A probe loop recurs on the probes left. A reader runs without a lock
-- while another thread inserts, so `get_loop` takes the table that it sees at each probe: a call
-- with no insert at the same time (`get`) sees one table throughout.
pub mod Probe
pub mod Invariant
pub mod Insert
pub mod Room
pub mod Concurrent
mod Tests
use opends_fork.Prelude.{
  ℕ, zero, suc, ◌+◌, ◌-◌, ◌*◌, ◌/◌, ◌%◌, ◌^◌, bit_and, Bool, Option, none, some, List, ◌==◌,
  if◌then◌else◌, get_or, set,
}
use opends_fork.Prelude.Int.{ℤ, pos, negsuc}

-- struct ds_stream_map_entry; a stream is a pointer, and 0 is NULL.
pub record Entry : Type 0 where
  pub key : ℕ
  pub idx : ℤ

abbrev pub empty_entry : Entry
empty_entry = record { key = 0; idx = pos 0 }

abbrev pub Table : Type 0
Table = List Entry

-- `v *= 0x9E37...` on 64 bits, then the cast of `v >> 32` to uint32_t, masked.
pub hash : ℕ → ℕ → ℕ
hash s mask = bit_and (s * 0x9E3779B97F4A7C15 % 2 ^ 64 / 2 ^ 32 % 2 ^ 32) mask

-- `(h + p) & mask`, on uint32_t.
pub slot : ℕ → ℕ → ℕ → ℕ
slot h mask p = bit_and ((h + p) % 2 ^ 32) mask

-- `uint32_t cap = mask + 1`.
abbrev pub cap_of : ℕ → ℕ
cap_of mask = (mask + 1) % 2 ^ 32

-- The entry at an index of the array.
abbrev pub at : Table → ℕ → Entry
at t i = get_or t i empty_entry

-- The loop of `ds_stream_map_get` from probe `p`, with the probes left; `seen p` is the table at
-- the time of that probe's loads. The index, or -1.
pub get_loop : (ℕ → Table) → ℕ → ℕ → ℕ → ℕ → ℕ → ℤ
get_loop seen mask stream h zero p = negsuc 0
get_loop seen mask stream h (suc n) p =
    let rest = get_loop seen mask stream h n (p + 1) in
    let e = at (seen p) (slot h mask p) in
    if e.key == stream then e.idx else if e.key == 0 then negsuc 0 else rest

pub get_seen : (ℕ → Table) → ℕ → ℕ → ℤ
unfolding get_loop
get_seen seen mask stream = get_loop seen mask stream (hash stream mask) (cap_of mask) 0

pub get : Table → ℕ → ℕ → ℤ
unfolding get_seen
get t mask stream = get_seen (λ _. t) mask stream

-- The loop of `ds_stream_map_put`: the table with the entry written, or none if no slot is empty.
pub put_loop : Table → ℕ → ℕ → ℤ → ℕ → ℕ → ℕ → Option Table
put_loop t mask stream idx h zero p = none
put_loop t mask stream idx h (suc n) p =
    let rest = put_loop t mask stream idx h n (p + 1) in
    let i = slot h mask p in
    if (at t i).key == 0 then some (set t i (record { key = stream; idx = idx })) else rest

pub put : Table → ℕ → ℕ → ℤ → Option Table
unfolding put_loop
put t mask stream idx = put_loop t mask stream idx (hash stream mask) (cap_of mask) 0
