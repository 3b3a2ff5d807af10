-- ===== src/Memory/Manager/History.antt =====
-- Runs of the manager: from `init`, through any calls of memAlloc_ and memFree_.
use os1_proj.Prelude.{
  ℕ, suc, ◌+◌, ◌-◌, ◌*◌, ◌/◌, ◌≤◌, ◌<◌, ◌≡◌, ◌≢◌, refl, false, List, [], ◌∷◌, arith, word, ◌==◌,
  sym, Bool-cases, inl, inr, subst, ◌-w◌, Option-cases,
}
use os1_proj.Memory.{Ptr, block, null, Heap, align}
use os1_proj.Memory.Links.{has, first}
use os1_proj.Memory.Lists.{Listed}
use os1_proj.Memory.Manager.{
  Owner, unused, user, system, Manager, mem_alloc, mem_free, init, head_of,
}
use os1_proj.Memory.Manager.Layout.{
  same, tile, Layout, held, alloc, IsCoalesced, Tiles-split, Tiles-le,
}
use os1_proj.Memory.Manager.State.{limit, Represents}
use os1_proj.Memory.Manager.Alloc.{mem_alloc-alloc}
use os1_proj.Memory.Manager.Release.{
  mem_free-release, mem_free-rejected, mem_free-null, Holds, holds, find_held,
}
use os1_proj.Memory.Manager.Coalesced.{alloc-IsCoalesced}

-- The first block boundary that `init` uses.
abbrev pub aligned : ℕ → ℕ
aligned a = (a + 63) / 64 * 64

init-lists :
    (h : Heap) (a b : ℕ) (o : Owner)
    → Listed
        (init h a b).heap
        (head_of o (init h a b))
        (held o (tile (align a block) ((b -w align a block) / block) unused ∷ []))
unfolding init held same first
init-lists h a b unused = record {
  links = (ground arith, ground arith, ground arith, tt);
  at_head = refl;
}
init-lists h a b user = record { links = tt; at_head = refl }
init-lists h a b system = record { links = tt; at_head = refl }

align-aligned : (a : ℕ) → a + block ≤ word → align a block ≡ aligned a
unfolding align
align-aligned a h = omega arith

-- If the bounds of the heap leave room for a block, then after `init` the memory is one unused tile,
-- from the first block boundary on.
pub init-Represents :
    (h : Heap) (first_addr end_addr : ℕ)
    → 0 < first_addr
    → aligned first_addr + block ≤ end_addr
    → end_addr < word
    → Represents
        (init h first_addr end_addr)
        (tile (aligned first_addr) ((end_addr - aligned first_addr) / block) unused ∷ [])
unfolding init
init-Represents h a b pos room bound =
    let start : align a block ≡ aligned a = align-aligned a (omega arith) in
    let size : (b -w aligned a) / block ≡ (b - aligned a) / block = omega arith in
    rw (← size, ← start)
      (record {
        lists = init-lists h a b;
        tiles = rw start (refl, omega arith, omega arith);
        pos = rw start (omega arith);
        bound = rw start (omega arith);
      })

-- A call of the manager: memAlloc_ or memFree_, for the user's list or for the system's.
pub data Request : Type 0 where
  allocate : Owner → ℕ → Request
  deallocate : Owner → Ptr → Request

pub serve : Manager → Request → Manager
serve m (allocate o n) = (mem_alloc m o n).0
serve m (deallocate o p) = (mem_free m o p).0

pub serve_all : Manager → List Request → Manager
serve_all m [] = m
serve_all m (q ∷ qs) = serve_all (serve m q) qs

-- The requests under which the manager is sound: no size that wraps around, and not the address of
-- the first block.
abbrev pub IsSane : Request → Type 0
IsSane (allocate o n) = (same o unused ≡ false) × (suc n < word)
IsSane (deallocate o p) = (same o unused ≡ false) × (p ≢ block) × (p < word)

abbrev pub AllSane : List Request → Type 0
AllSane [] = Unit {0}
AllSane (q ∷ qs) = IsSane q × AllSane qs

-- The manager stands for some layout with no two unused tiles side by side.
pub record IsSound (m : Manager) : Type 0 where
  pub layout : Layout
  pub represents : Represents m layout
  pub coalesced : IsCoalesced layout

allocate-IsSound :
    (m : Manager) (o : Owner) (n : ℕ)
    → same o unused ≡ false
    → suc n < word
    → IsSound m
    → IsSound (mem_alloc m o n).0
allocate-IsSound m o n d small s = elim (Option-cases (alloc o (suc n) s.layout)) [
  | inl e ↦
      let out = rw e at (mem_alloc-alloc m o n small s.layout s.represents) in
      subst IsSound (sym out.1) s
  | inr ((a, us), e) ↦
      let out = rw e at (mem_alloc-alloc m o n small s.layout s.represents) in
      record {
        layout = us;
        represents = out.1;
        coalesced = alloc-IsCoalesced o (suc n) s.layout a us d s.coalesced e;
      }
]

-- An accepted pointer lies one block behind its header: the subtraction does not wrap around.
header_below :
    (m : Manager) (o : Owner) (p : Ptr) (ts : Layout)
    → p < word
    → Represents m ts
    → Holds o (p -w block) ts
    → (p -w block) + block ≡ p
header_below m o p ts small r (holds us n vs split) =
    let parts = Tiles-split m.start (limit m) us (tile (p -w block) n o) vs (rw split at r.tiles) in
    omega (arith, Tiles-le (p -w block + n * block) (limit m) vs parts.2, r.bound, parts.1)

deallocate-IsSound :
    (m : Manager) (o : Owner) (p : Ptr)
    → p ≢ block
    → p < word
    → IsSound m
    → IsSound (mem_free m o p).0
deallocate-IsSound m o p ne small s = elim (Bool-cases (p == null)) [
  | inl e ↦ let zero_ptr : p ≡ null = ground arith in rw (zero_ptr, mem_free-null m o) s
  | inr e ↦ elim (Bool-cases (has (p -w block) (held o s.layout))) [
    | inl h ↦
        let (us, done) = mem_free-release m o (p -w block) s.layout s.represents s.coalesced h in
        let back = header_below m o p s.layout small s.represents (find_held o _ s.layout h) in
        record { layout = us; represents = rw back at done.represents; coalesced = done.coalesced }
    | inr h ↦ rw (mem_free-rejected m o p s.layout s.represents (ground arith) (omega arith) h) s
  ]
]

-- A manager that stands for a coalesced layout still does after any sequence of requests of the user
-- and the system, if all arguments are below 2 ^ 64, none asks for 2 ^ 64 - 1 blocks and none frees
-- the address 64.
pub serve_all-IsSound :
    (qs : List Request) (m : Manager) → AllSane qs → IsSound m → IsSound (serve_all m qs)
unfolding serve_all serve
serve_all-IsSound [] m g s = s
serve_all-IsSound (allocate o n ∷ qs) m g s =
    serve_all-IsSound qs (mem_alloc m o n).0 g.1 (allocate-IsSound m o n g.0.0 g.0.1 s)
serve_all-IsSound (deallocate o p ∷ qs) m g s =
    serve_all-IsSound qs (mem_free m o p).0 g.1 (deallocate-IsSound m o p g.0.1 g.0.2 s)
