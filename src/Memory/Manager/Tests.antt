-- ===== src/Memory/Manager/Tests.antt =====
-- The theorems about the memory manager at a heap of fourteen blocks.
use os1_proj.Prelude.{◌+◌, ◌-◌, ◌*◌, ◌≡◌, ◌≢◌, refl, false, [], ◌∷◌, arith, some, word}
use os1_proj.Memory.{
  Ptr, block, null, Heap, align, find_by_size, find_by_pointer, reduce, insert_as_head,
}
use os1_proj.Memory.Links.{has}
use os1_proj.Memory.Manager.{
  fuel, unused, user, system, Manager, init, mem_alloc, mem_free, mem_alloc_byte, err_mem_free,
}
use os1_proj.Memory.Manager.Layout.{tile, Layout, same, held, alloc, carve, remains}
use os1_proj.Memory.Manager.State.{Represents}
use os1_proj.Memory.Manager.Alloc.{Allocates, mem_alloc-alloc}
use os1_proj.Memory.Manager.Release.{Frees, mem_free-release, mem_free-rejected}
use os1_proj.Memory.Manager.History.{
  allocate, deallocate, serve_all, IsSound, init-Represents, serve_all-IsSound,
}
use os1_proj.Memory.Manager.RoundTrip.{mem_free-mem_alloc}
use os1_proj.Memory.Manager.Apart.{AllApart, mem_alloc_apart}
use os1_proj.Memory.Manager.Usage.{total_size, total_size-sum}
use os1_proj.Memory.Manager.Bytes.{mem_alloc_byte_wraps, mem_alloc_wraps}

abbrev pub no_headers : Heap
no_headers x = record { prev = 0; next = 0; size = 0 }

abbrev pub booted : Manager
booted = init no_headers 100 1030

init-Represents_example : Represents (init no_headers 100 1030) (tile 128 14 unused ∷ [])
init-Represents_example =
    init-Represents no_headers 100 1030 (omega arith) (omega arith) (omega arith)

pub booted-Represents : Represents booted (tile 128 14 unused ∷ [])
booted-Represents = init-Represents no_headers 100 1030 (omega arith) (omega arith) (omega arith)

booted-IsSound : IsSound booted
booted-IsSound = record {
  layout = tile 128 14 unused ∷ [];
  represents = booted-Represents;
  coalesced = (refl, tt);
}

abbrev shared : Layout
shared = tile 128 3 user ∷ tile 320 11 unused ∷ []

mem_alloc-alloc_example :
    Allocates booted (tile 128 14 unused ∷ []) (some (128, shared)) (mem_alloc booted user 2)
unfolding alloc same carve remains
mem_alloc-alloc_example =
    mem_alloc-alloc booted user 2 (omega arith) (tile 128 14 unused ∷ []) booted-Represents

-- The manager after the user has been given two blocks.
abbrev lent : Manager
lent = (mem_alloc booted user 2).0

lent-Represents : Represents lent shared
unfolding alloc same carve remains
lent-Represents =
    (mem_alloc-alloc booted user 2 (omega arith) (tile 128 14 unused ∷ []) booted-Represents).1

mem_free-release_example : (us : Layout) × Frees lent user 128 shared us
unfolding held has same
mem_free-release_example =
    mem_free-release lent user 128 shared lent-Represents (refl, (refl, tt)) refl

mem_free-rejected_example : mem_free lent user 200 ≡ (lent, err_mem_free)
unfolding held has same
mem_free-rejected_example =
    mem_free-rejected lent user 200 shared lent-Represents (omega arith) (omega arith) refl

given : (mem_alloc lent system 4).1 ≢ null
unfolding alloc same carve remains
given e = omega (arith, (mem_alloc-alloc lent system 4 (omega arith) shared lent-Represents).0)

mem_free-mem_alloc_example :
    Represents (mem_free (mem_alloc lent system 4).0 system (mem_alloc lent system 4).1).0 shared
    × ((mem_free (mem_alloc lent system 4).0 system (mem_alloc lent system 4).1).1 ≡ 0)
unfolding same
mem_free-mem_alloc_example =
    mem_free-mem_alloc lent system 4 shared refl (omega arith) lent-Represents (refl, (refl, tt))
      given

mem_alloc_apart_example :
    (a : Ptr) × (us : Layout) × ((mem_alloc lent system 4).1 ≡ a + block)
    × Represents (mem_alloc lent system 4).0 us
    × AllApart a (a + 5 * block) (held user shared)
    × (same system user ≡ false → held user us ≡ held user shared)
unfolding same
mem_alloc_apart_example =
    mem_alloc_apart lent system user 4 shared (omega arith) refl lent-Represents given

serve_all-IsSound_example :
    IsSound (serve_all booted (allocate user 2 ∷ allocate system 3 ∷ deallocate user 192 ∷ []))
unfolding same
serve_all-IsSound_example =
    serve_all-IsSound (allocate user 2 ∷ allocate system 3 ∷ deallocate user 192 ∷ []) booted
      ((refl, omega arith), ((refl, omega arith), ((refl, omega arith, omega arith), tt)))
      booted-IsSound

mem_alloc_byte_wraps_example : mem_alloc_byte booted user (word - 1) ≡ mem_alloc booted user 0
mem_alloc_byte_wraps_example =
    mem_alloc_byte_wraps booted user (word - 1) (omega arith) (omega arith)

mem_alloc_wraps_example : (mem_alloc booted user (word - 1)).1 ≡ 192
unfolding init align
mem_alloc_wraps_example = mem_alloc_wraps booted user (omega arith) (omega arith)

-- The executable model agrees: the second allocation stands behind the first.
second_block : (mem_alloc lent system 4).1 ≡ 384
unfolding init align mem_alloc find_by_size find_by_pointer reduce insert_as_head
second_block = refl

total_size-sum_example :
    total_size (fuel booted) booted.heap booted.free_memory_head
      + total_size (fuel booted) booted.heap booted.user_memory_head
      + total_size (fuel booted) booted.heap booted.system_memory_head
    ≡ booted.total * block
total_size-sum_example = total_size-sum booted (tile 128 14 unused ∷ []) booted-Represents
