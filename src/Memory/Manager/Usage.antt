-- ===== src/Memory/Manager/Usage.antt =====
-- util/memoryManagerUtils.hpp: how many segments a list has, and how much memory they take.
use os1_proj.Prelude.{
  ℕ, zero, suc, ◌+◌, ◌*◌, ◌≤◌, ◌<◌, ◌≡◌, false, List, [], ◌∷◌, arith, ◌==◌, if◌then◌else◌, length,
  word, ◌+w◌, ◌*w◌, ◌-w◌, ◌∙◌,
}
use os1_proj.Memory.{Ptr, null, block, Heap}
use os1_proj.Memory.Links.{Segment, stop, first, Links, Ordered}
use os1_proj.Memory.Manager.{Owner, unused, user, system, Manager, fuel, head_of}
use os1_proj.Memory.Manager.Layout.{same, Layout, Tiles, held, held-Ordered, edge, Tile}
use os1_proj.Memory.Manager.State.{Represents, limit, Ordered-length}

-- The loop of countSegments, from the count `b` on.
unfoldable pub count_loop : ℕ → Heap → (head : Ptr) → (b : ℕ) → ℕ
count_loop zero h head b = b
count_loop (suc fuel) h head b =
    let rest = count_loop fuel h (h head).next (b +w 1) in if head == null then b else rest

unfoldable pub count_segments : ℕ → Heap → (head : Ptr) → ℕ
unfolding count_loop
count_segments fuel h head = count_loop fuel h head 0

-- getBlocksCount
unfoldable pub get_blocks_count : Heap → (p : Ptr) → ℕ
get_blocks_count h p = (h (p -w block)).size

-- The loop of totalSize, from the size `sz` on.
unfoldable pub total_loop : ℕ → Heap → (head : Ptr) → (sz : ℕ) → ℕ
total_loop zero h head sz = sz
total_loop (suc fuel) h head sz =
    let rest = total_loop fuel h (h head).next (sz +w (h head).size *w block) in
    if head == null then sz else rest

unfoldable pub total_size : ℕ → Heap → (head : Ptr) → ℕ
unfolding total_loop
total_size fuel h head = total_loop fuel h head 0

-- The blocks of a list of segments.
unfoldable pub blocks : List Segment → ℕ
blocks [] = 0
blocks (s ∷ xs) = s.size + blocks xs

Ordered-blocks : (lo hi : ℕ) (xs : List Segment) → Ordered lo hi xs → lo + blocks xs * block ≤ hi
unfolding blocks
Ordered-blocks lo hi [] o = omega arith
Ordered-blocks lo hi (s ∷ xs) o = omega (arith, Ordered-blocks (stop s) hi xs o.2)

total_loop-blocks :
    (fuel : ℕ) (h : Heap) (q sz lo hi : ℕ) (xs : List Segment)
    → 0 < lo
    → Ordered lo hi xs
    → Links h q xs null
    → length xs ≤ fuel
    → sz + blocks xs * block < word
    → total_loop fuel h (first xs null) sz ≡ sz + blocks xs * block
unfolding total_loop first blocks
total_loop-blocks zero h q sz lo hi [] pos o l f b = omega arith
total_loop-blocks (suc fuel) h q sz lo hi [] pos o l f b = omega arith
total_loop-blocks zero h q sz lo hi (s ∷ xs) pos o l f b = absurd (omega arith)
total_loop-blocks (suc fuel) h q sz lo hi (s ∷ xs) pos o l f b =
    let some_one : (s.addr == null) ≡ false = ground arith in
    let exact : sz +w s.size *w block ≡ sz + s.size * block = omega arith in
    rw (some_one, l.1, l.2, exact)
      (total_loop-blocks fuel h s.addr (sz + s.size * block) (stop s) hi xs (omega arith) o.2 l.3
          (omega arith) (omega arith)
        ∙ omega arith)

count_loop-length :
    (fuel : ℕ) (h : Heap) (q b lo hi : ℕ) (xs : List Segment)
    → 0 < lo
    → Ordered lo hi xs
    → Links h q xs null
    → length xs ≤ fuel
    → b + length xs < word
    → count_loop fuel h (first xs null) b ≡ b + length xs
unfolding count_loop first
count_loop-length zero h q b lo hi [] pos o l f w = omega arith
count_loop-length (suc fuel) h q b lo hi [] pos o l f w = omega arith
count_loop-length zero h q b lo hi (s ∷ xs) pos o l f w = absurd (omega arith)
count_loop-length (suc fuel) h q b lo hi (s ∷ xs) pos o l f w =
    let some_one : (s.addr == null) ≡ false = ground arith in
    let exact : b +w 1 ≡ b + 1 = omega arith in
    rw (some_one, l.1, exact)
      (count_loop-length fuel h s.addr (b + 1) (stop s) hi xs (omega arith) o.2 l.3 (omega arith)
          (omega arith)
        ∙ omega arith)

-- Every tile has one owner.
one_owner :
    (o : Owner) (n : ℕ)
    → (if same o unused then n else 0)
        + (if same o user then n else 0)
        + (if same o system then n else 0)
      ≡ n
unfolding same
one_owner unused n = omega arith
one_owner user n = omega arith
one_owner system n = omega arith

held_step :
    (o : Owner) (t : Tile) (ts : Layout)
    → blocks (held o (t ∷ ts)) ≡ (if same t.owner o then t.size else 0) + blocks (held o ts)
unfolding blocks held
held_step o t ts = ground arith

-- The blocks of all tiles are those of the three lists.
held_sizes :
    (lo hi : ℕ) (ts : Layout)
    → Tiles lo hi ts
    → lo + (blocks (held unused ts) + blocks (held user ts) + blocks (held system ts)) * block ≡ hi
held_sizes lo hi [] c = unfold blocks held in omega (arith, c)
held_sizes lo hi (t ∷ ts) c = omega (
  arith,
  c.0,
  held_sizes (edge t) hi ts c.2,
  one_owner t.owner t.size,
  held_step unused t ts,
  held_step user t ts,
  held_step system t ts,
)

module _ (m : Manager) (ts : Layout) (r : Represents m ts) where
  list_size : (o : Owner) → total_size (fuel m) m.heap (head_of o m) ≡ blocks (held o ts) * block
  unfolding total_size
  list_size o =
      let ord = held-Ordered o m.start (limit m) ts r.tiles in
      let short = Ordered-length m.start (limit m) (held o ts) ord in
      let fits = Ordered-blocks m.start (limit m) (held o ts) ord in
      rw (r.lists o).at_head (
        total_loop-blocks (fuel m) m.heap null 0 m.start (limit m) (held o ts) r.pos ord
          (r.lists o).links (omega (arith, short)) (omega (arith, fits, r.bound))
        ∙ omega arith)

  -- No block is lost: for a manager that stands for a layout, the sizes that totalSize finds for the
  -- three lists add up to the size of the heap.
  pub total_size-sum :
      total_size (fuel m) m.heap m.free_memory_head
        + total_size (fuel m) m.heap m.user_memory_head
        + total_size (fuel m) m.heap m.system_memory_head
      ≡ m.total * block
  total_size-sum = omega (
    arith,
    list_size unused,
    list_size user,
    list_size system,
    held_sizes m.start (limit m) ts r.tiles,
  )

  -- For a manager that stands for a layout, countSegments counts the tiles of an owner.
  pub count_segments-length :
      (o : Owner) → count_segments (fuel m) m.heap (head_of o m) ≡ length (held o ts)
  unfolding count_segments
  count_segments-length o =
      let ord = held-Ordered o m.start (limit m) ts r.tiles in
      let short = Ordered-length m.start (limit m) (held o ts) ord in
      rw (r.lists o).at_head (
        count_loop-length (fuel m) m.heap null 0 m.start (limit m) (held o ts) r.pos ord
          (r.lists o).links (omega (arith, short)) (omega (arith, short, r.bound))
        ∙ omega arith)
