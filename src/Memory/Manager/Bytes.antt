-- ===== src/Memory/Manager/Bytes.antt =====
-- Requests in bytes, and requests whose block count wraps around.
use os1_proj.Prelude.{ℕ, ◌+◌, ◌-◌, ◌*◌, ◌≤◌, ◌<◌, ◌≡◌, ◌≢◌, arith, word, ap}
use os1_proj.Memory.{block, null, round_up, find_by_size}
use os1_proj.Memory.Manager.{Owner, Manager, mem_alloc, mem_alloc_byte}

-- Up to 2 ^ 64 - 64 bytes, `round_up` gives a number of blocks that holds them, with less than a block
-- to spare.
pub round_up_least :
    (n : ℕ)
    → n + block ≤ word
    → (n ≤ round_up n block * block) × (round_up n block * block < n + block)
unfolding round_up
round_up_least n h = omega arith

-- A request for more than 2 ^ 64 - 64 bytes wraps around: it is served as one for no block at all.
pub mem_alloc_byte_wraps :
    (m : Manager) (o : Owner) (n : ℕ)
    → word < n + block
    → n < word
    → mem_alloc_byte m o n ≡ mem_alloc m o 0
unfolding mem_alloc_byte round_up
mem_alloc_byte_wraps m o n h small =
    let none : round_up n block ≡ 0 = unfold round_up in omega arith in ap (mem_alloc m o) none

-- A request for 2 ^ 64 - 1 blocks wraps around to none, and is given the block behind the first free
-- header, if there is a free segment and that address does not wrap around, whatever its size is.
pub mem_alloc_wraps :
    (m : Manager) (o : Owner)
    → m.free_memory_head ≢ null
    → m.free_memory_head + block < word
    → (mem_alloc m o (word - 1)).1 ≡ m.free_memory_head + block
unfolding mem_alloc find_by_size
mem_alloc_wraps m o ne small = ground arith
