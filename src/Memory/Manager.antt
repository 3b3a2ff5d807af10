-- ===== src/Memory/Manager.antt =====
-- MemoryManager of h/memoryManager.hpp and src/memoryManager.cpp.
pub mod Alloc
pub mod Apart
pub mod Coalesced
pub mod Free
pub mod Growing
pub mod History
pub mod Layout
pub mod Merging
pub mod Release
pub mod RoundTrip
pub mod Bytes
pub mod Tests
pub mod State
pub mod Steps
pub mod Taking
pub mod Usage
use os1_proj.Prelude.{ℕ, suc, ◌-◌, ◌/◌, ◌≡◌, not, ◌==◌, if◌then◌else◌, word, ◌+w◌, ◌-w◌}
use os1_proj.Memory.{
  Ptr, null, block, Heap, Msh, align, round_up, merge, reduce, insert_after, insert_as_head, remove,
  find_by_pointer, find_by_size,
}

-- The lists that the manager keeps: `head` in memAlloc_ and memFree_ is one of the last two.
pub data Owner : Type 0 where
  unused user system : Owner

-- The statics of MemoryManager and the header store. `start` and `total` are the address and the
-- number of blocks that `init` computes: `total` bounds the loops.
pub record Manager : Type 0 where
  pub heap : Heap
  pub free_memory_head : Ptr
  pub system_memory_head : Ptr
  pub user_memory_head : Ptr
  pub start : Ptr
  pub total : ℕ

abbrev pub fuel : Manager → ℕ
fuel m = suc m.total

abbrev pub head_of : Owner → Manager → Ptr
head_of unused m = m.free_memory_head
head_of user m = m.user_memory_head
head_of system m = m.system_memory_head

abbrev pub set_head : Owner → Manager → Ptr → Manager
set_head unused m p = record m { free_memory_head = p }
set_head user m p = record m { user_memory_head = p }
set_head system m p = record m { system_memory_head = p }

-- ERR_MEM_FREE, as a uint64
abbrev pub err_mem_free : ℕ
err_mem_free = word - 1

-- MemoryManager::init, given the bounds of the heap and what the memory holds.
unfoldable pub init : Heap → (heap_start_addr heap_end_addr : ℕ) → Manager
init h heap_start_addr heap_end_addr =
    let head = align heap_start_addr block in
    let blocks = (heap_end_addr -w head) / block in
    record {
      heap = λ x. if x == head then record { prev = null; next = null; size = blocks } else h x;
      free_memory_head = head;
      system_memory_head = null;
      user_memory_head = null;
      start = head;
      total = blocks;
    }

-- "remove from free memory" in memAlloc_
unfoldable pub detach : Manager → Ptr → ℕ → Manager
detach m seg blocks =
    if (m.heap seg).size == blocks
    then (let (h, head) = remove m.heap m.free_memory_head seg in
        record m { heap = h; free_memory_head = head })
    else (let (_, h, head) = reduce m.heap m.free_memory_head seg blocks in
        record m { heap = h; free_memory_head = head })

-- "add to process' memory" in memAlloc_ and "add to free memory" in memFree_
unfoldable pub enlist : Manager → Owner → Ptr → Manager
enlist m o seg =
    let place = find_by_pointer (fuel m) m.heap (head_of o m) seg in
    if not (place == null)
    then record m { heap = insert_after m.heap place seg }
    else (let (h, head) = insert_as_head m.heap (head_of o m) seg in
        record (set_head o m head) { heap = h })

-- MemoryManager::memAlloc_
unfoldable pub mem_alloc : Manager → Owner → ℕ → Manager × Ptr
unfolding detach enlist
mem_alloc m o blocks =
    let blocks_act = blocks +w 1 in
    let seg = find_by_size (fuel m) m.heap m.free_memory_head blocks_act in
    if seg == null then (m, null) else (enlist (detach m seg blocks_act) o seg, seg +w block)

-- "remove from process" in memFree_
pub delist : Manager → Owner → Ptr → Manager
delist m o seg =
    let (h, head) = remove m.heap (head_of o m) seg in record (set_head o m head) { heap = h }

-- "merge" in memFree_
pub coalesce : Manager → Ptr → Manager
coalesce m seg =
    let (h, _) = merge (fuel m) m.heap seg in
    record m { heap = if not ((h seg).prev == null) then (merge (fuel m) h (h seg).prev).0 else h }

-- MemoryManager::memFree_. For the address 64 the header would stand at null, and what the source then
-- does is undefined; here null is read and written like any other address.
pub mem_free : Manager → Owner → Ptr → Manager × ℕ
unfolding enlist delist coalesce
mem_free m o mem_addr =
    let seg = mem_addr -w block in
    if mem_addr == null
    then (m, 0)
    else if not (seg == find_by_pointer (fuel m) m.heap (head_of o m) seg)
    then (m, err_mem_free)
    else (coalesce (enlist (delist m o seg) unused seg) seg, 0)

-- memAlloc_byte and kMemAlloc_byte
unfoldable pub mem_alloc_byte : Manager → Owner → ℕ → Manager × Ptr
unfolding mem_alloc round_up
mem_alloc_byte m o bytes = mem_alloc m o (round_up bytes block)
