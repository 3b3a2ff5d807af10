-- ===== src/Memory/Manager/Alloc.antt =====
-- memAlloc_ is first fit on the layout.
use os1_proj.Prelude.{
  ℕ, suc, ◌+◌, ◌*◌, ◌≤◌, ◌<◌, ◌≡◌, refl, false, [], ◌∷◌, ◌++◌, arith, word, ◌==◌, ap, subst, ◌∙◌,
  Bool-cases, inl, inr, Option, some, none, leb, ◌&&◌, ◌+w◌,
}
use os1_proj.Memory.{Ptr, block, null, find_by_size}
use os1_proj.Memory.Links.{segment}
use os1_proj.Memory.Search.{AllBelow, find_by_size-none, find_by_size-hit}
use os1_proj.Memory.Manager.{Owner, unused, Manager, fuel, enlist, detach, mem_alloc}
use os1_proj.Memory.Manager.Layout.{
  same, Tile, tile, Layout, held, remains, carve, alloc, held-Ordered, same-eq, Tiles-split,
  Tiles-le,
}
use os1_proj.Memory.Manager.State.{limit, Represents, Ordered-length}
use os1_proj.Memory.Manager.Steps.{held-tile, enlist-Represents}
use os1_proj.Memory.Manager.Taking.{detach-IsLoose}

-- How the search of a layout for `k` unused blocks ends.
pub data Fit (o : Owner) (k : ℕ) (ts : Layout) : Type 0 where
  missing : alloc o k ts ≡ none → AllBelow k (held unused ts) → Fit o k ts
  fit :
      (us : Layout) (t : Tile) (vs : Layout)
      → ts ≡ us ++ t ∷ vs
      → t.owner ≡ unused
      → k ≤ t.size
      → AllBelow k (held unused us)
      → alloc o k ts ≡ some (t.addr, us ++ carve o k t vs)
      → Fit o k ts

Fit-cons :
    (o : Owner) (k : ℕ) (t : Tile) (ts : Layout)
    → (same t.owner unused && leb k t.size) ≡ false
    → Fit o k ts
    → Fit o k (t ∷ ts)
unfolding alloc held
Fit-cons o k t ts e (missing fail below) = missing (rw (e, fail)) (ground arith)
Fit-cons o k t ts e (fit us u vs split free fits below found) =
    fit (t ∷ us) u vs (rw split) free fits (ground arith) (rw (e, found))

pub find-Fit : (o : Owner) (k : ℕ) (ts : Layout) → Fit o k ts
unfolding alloc held
find-Fit o k [] = missing refl tt
find-Fit o k (t ∷ ts) = elim (Bool-cases (same t.owner unused && leb k t.size)) [
  | inl e ↦ fit [] t ts refl (same-eq t.owner unused (ground arith)) (ground arith) tt (rw e)
  | inr e ↦ Fit-cons o k t ts e (find-Fit o k ts)
]

-- What `memAlloc_` returns, and the layout that it leaves, for each outcome of the first fit.
abbrev pub Allocates : Manager → Layout → Option (Ptr × Layout) → Manager × Ptr → Type 0
Allocates m ts none (m', p) = (p ≡ null) × (m' ≡ m)
Allocates m ts (some (a, us)) (m', p) = (p ≡ a + block) × Represents m' us

module _ (m : Manager) (o : Owner) (n : ℕ) (small : suc n < word) where
  act : n +w 1 ≡ suc n
  act = omega arith

  alloc-missing :
      (ts : Layout)
      → Represents m ts
      → AllBelow (suc n) (held unused ts)
      → mem_alloc m o n ≡ (m, null)
  unfolding mem_alloc
  alloc-missing ts r below =
      let free = r.lists unused in
      let found : find_by_size (fuel m) m.heap m.free_memory_head (suc n) ≡ null = rw free.at_head (
        find_by_size-none (fuel m) m.heap null m.start (limit m) (suc n) (held unused ts) r.pos
          (held-Ordered unused m.start (limit m) ts r.tiles) free.links below) in
      rw (act, found, mem_alloc)

  alloc-fit :
      (ts us : Layout) (a k : ℕ)
      → Represents m (ts ++ tile a k unused ∷ us)
      → AllBelow (suc n) (held unused ts)
      → suc n ≤ k
      → mem_alloc m o n ≡ (enlist (detach m a (suc n)) o a, a + block)
  unfolding mem_alloc same
  alloc-fit ts us a k r below fits =
      let parts = Tiles-split m.start (limit m) ts (tile a k unused) us r.tiles in
      let free = rw (held-tile unused unused a k ts us) at (r.lists unused) in
      let order =
        rw (held-tile unused unused a k ts us) at
          (held-Ordered unused m.start (limit m) (ts ++ tile a k unused ∷ us) r.tiles) in
      let found : find_by_size (fuel m) m.heap m.free_memory_head (suc n) ≡ a = rw free.at_head (
        find_by_size-hit (fuel m) m.heap null m.start (limit m) (suc n) (held unused ts)
          (segment a k) (held unused us) r.pos order free.links below fits
          (omega (
            arith,
            Ordered-length m.start a (held unused ts) (held-Ordered unused m.start a ts parts.0),
            Tiles-le (a + k * block) (limit m) us parts.2,
          ))) in
      let above : (a == null) ≡ false = ground (arith, Tiles-le m.start a ts parts.0, r.pos) in
      let place : a +w block ≡ a + block =
        omega (arith, Tiles-le (a + k * block) (limit m) us parts.2, r.bound) in
      rw (act, found, above, place, mem_alloc)

  fit-Allocates :
      (ts us vs : Layout) (t : Tile)
      → ts ≡ us ++ t ∷ vs
      → t.owner ≡ unused
      → suc n ≤ t.size
      → AllBelow (suc n) (held unused us)
      → Represents m ts
      → Allocates m ts (some (t.addr, us ++ carve o (suc n) t vs)) (mem_alloc m o n)
  unfolding carve
  fit-Allocates ts us vs t split free fits below r =
      let t' : t ≡ tile t.addr t.size unused = λ i. tile t.addr t.size (free i) in
      let r' = subst (Represents m) (split ∙ ap (λ z. us ++ z ∷ vs) t') r in
      rw (alloc-fit us vs t.addr t.size r' below fits) (
        refl,
        enlist-Represents _ o us (remains (suc n) t ++ vs) t.addr (suc n)
            (detach-IsLoose m us vs t.addr t.size (suc n) r' (omega arith) fits),
      )

  -- For fewer than 2 ^ 64 - 1 blocks and a manager that stands for a layout, `memAlloc_` gives out the
  -- block behind the header of the first unused tile that has room for one block more than is asked
  -- for and leaves the layout of the first fit; if there is none it returns null and changes nothing.
  pub mem_alloc-alloc :
      (ts : Layout) → Represents m ts → Allocates m ts (alloc o (suc n) ts) (mem_alloc m o n)
  mem_alloc-alloc ts r = elim (find-Fit o (suc n) ts) [
    | missing fail below ↦ rw (fail, alloc-missing ts r below) (refl, refl)
    | fit us t vs split free fits below found ↦
        rw found (fit-Allocates ts us vs t split free fits below r)
  ]
