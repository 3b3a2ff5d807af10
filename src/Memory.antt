-- ===== src/Memory.antt =====
-- h/memoryManager.hpp and src/memoryManager.cpp: the free list and the two lists of memory in use,
-- over a store of segment headers. The loops take fuel.
pub mod Cells
pub mod Edit
pub mod Search
pub mod Splice
pub mod Insert
pub mod Links
pub mod Lists
pub mod Merge
pub mod Manager
use os1_proj.Prelude.{
  ℕ, zero, suc, ◌+◌, ◌-◌, ◌/◌, Bool, true, false, ◌&&◌, ◌||◌, not, ltb, leb, ◌==◌, if◌then◌else◌,
  ◌+w◌, ◌-w◌, ◌*w◌,
}

abbrev pub Ptr : Type 0
Ptr = ℕ

abbrev pub null : Ptr
null = 0

-- MEM_BLOCK_SIZE
abbrev pub block : ℕ
block = 64

-- The memory segment header.
pub record Msh : Type 0 where
  pub prev : Ptr
  pub next : Ptr
  pub size : ℕ

-- What each address holds when it is read as a header.
abbrev pub Heap : Type 0
Heap = Ptr → Msh

unfoldable pub set_prev : Heap → Ptr → Ptr → Heap
set_prev h p v x = if x == p then record (h x) { prev = v } else h x

unfoldable pub set_next : Heap → Ptr → Ptr → Heap
set_next h p v x = if x == p then record (h x) { next = v } else h x

unfoldable pub set_size : Heap → Ptr → ℕ → Heap
set_size h p v x = if x == p then record (h x) { size = v } else h x

-- `if (p) p->prev = v`
unfoldable pub set_prev_if : Heap → Ptr → Ptr → Heap
unfolding set_prev
set_prev_if h p v = if p == null then h else set_prev h p v

-- `this->prev = this->next = nullptr`
unfoldable pub unlinked : Heap → Ptr → Heap
unfolding set_prev set_next
unlinked h this = set_prev (set_next h this null) this null

-- ALIGN and ROUNDUP
unfoldable pub align : (addr measure : ℕ) → ℕ
align addr measure = ((addr +w measure) -w 1) / measure *w measure

unfoldable pub round_up : (size unit : ℕ) → ℕ
round_up size unit = ((size +w unit) -w 1) / unit

-- The body of the loop of MSH::merge.
unfoldable pub merge_step : Heap → Ptr → Heap
unfolding set_size set_next set_prev_if
merge_step h this =
    let next = (h this).next in
    let h1 = set_size h this ((h this).size +w (h next).size) in
    let h2 = set_next h1 this (h1 next).next in set_prev_if h2 (h2 this).next this

-- MSH::merge: the header store after the loop, and the number of mergers.
unfoldable pub merge_loop : ℕ → Heap → Ptr → ℕ → Heap × ℕ
unfolding merge_step
merge_loop zero h this count = (h, count)
merge_loop (suc fuel) h this count =
    let next = (h this).next in
    let rest = merge_loop fuel (merge_step h this) this (count + 1) in
    if not (next == null) && ((this +w (h this).size *w block) == next) then rest else (h, count)

unfoldable pub merge : ℕ → Heap → Ptr → Heap × ℕ
merge fuel h this = merge_loop fuel h this 0

-- MSH::reduce, from the first write on: the header store and `*pHead`.
unfoldable pub relocate : Heap → (head this new : Ptr) → (amount : ℕ) → Heap × Ptr
unfolding set_size set_next set_prev set_prev_if unlinked
relocate h head this new amount =
    let h1 = set_size h new ((h this).size - amount) in
    let h2 = set_size h1 this amount in
    let h3 = set_prev h2 new (h2 this).prev in
    let h4 = set_next h3 new (h3 this).next in
    let h5 = if head == this then h4 else set_next h4 (h4 new).prev new in
    let h6 = set_prev_if h5 (h5 new).next new in
    (unlinked h6 this, if head == this then new else head)

-- MSH::reduce: the result, the header store, and `*pHead`.
unfoldable pub reduce : Heap → (head this : Ptr) → (amount : ℕ) → Bool × Heap × Ptr
unfolding relocate
reduce h head this amount =
    if ltb (h this).size 1 || leb (h this).size amount
    then (false, h, head)
    else (let (h', head') = relocate h head this (this +w amount *w block) amount in
        (true, h', head'))

-- MSH::insertAfter
unfoldable pub insert_after : Heap → (this other : Ptr) → Heap
unfolding set_next set_prev set_prev_if
insert_after h this other =
    if other == null
    then h
    else (let h1 = set_prev h other this in
        let h2 = set_next h1 other (h1 this).next in
        let h3 = set_next h2 this other in set_prev_if h3 (h3 other).next other)

-- MSH::insertAsHead: the header store and `*pHead`. `pHead` is the address of a static.
unfoldable pub insert_as_head : Heap → (head other : Ptr) → Heap × Ptr
unfolding set_next set_prev set_prev_if
insert_as_head h head other =
    if other == null
    then (h, head)
    else (let h1 = set_prev h other null in
        let h2 = set_next h1 other head in (set_prev_if h2 (h2 other).next other, other))

-- MSH::remove: the header store and `*pHead`.
unfoldable pub remove : Heap → (head this : Ptr) → Heap × Ptr
unfolding set_next set_prev set_prev_if unlinked
remove h head this =
    if head == this
    then (unlinked (set_prev_if h (h this).next null) this, (h this).next)
    else (let h1 = set_next h (h this).prev (h this).next in
        (unlinked (set_prev_if h1 (h1 this).next (h1 this).prev) this, head))

-- The loop of MSH::findByPointer.
unfoldable pub find_by_pointer_loop : ℕ → Heap → (iterator other : Ptr) → Ptr
find_by_pointer_loop zero h iterator other = iterator
find_by_pointer_loop (suc fuel) h iterator other =
    let next = (h iterator).next in
    let rest = find_by_pointer_loop fuel h next other in
    if not (next == null) && leb next other then rest else iterator

-- MSH::findByPointer
unfoldable pub find_by_pointer : ℕ → Heap → (head other : Ptr) → Ptr
unfolding find_by_pointer_loop
find_by_pointer fuel h head other =
    if not (head == null) && leb head other then find_by_pointer_loop fuel h head other else null

-- MSH::findBySize
unfoldable pub find_by_size : ℕ → Heap → (iterator : Ptr) → ℕ → Ptr
find_by_size zero h iterator blocks = null
find_by_size (suc fuel) h iterator blocks =
    let rest = find_by_size fuel h (h iterator).next blocks in
    if not (iterator == null) && ltb (h iterator).size blocks then rest else iterator
