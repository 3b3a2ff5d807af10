-- ===== src/Memory/Manager/Layout.antt =====
-- The abstract view of the memory that the manager gives out: tiles that cover the heap, each unused
-- or held by the user or by the system, and the first-fit allocator on them.
use os1_proj.Prelude.{
  ℕ, ◌+◌, ◌-◌, ◌*◌, ◌≤◌, ◌<◌, ◌≡◌, refl, Bool, true, false, ◌&&◌, Option, none, some, List, [], ◌∷◌,
  ◌++◌, arith, leb, ◌==◌, if◌then◌else◌, sym,
}
use os1_proj.Memory.{Ptr, block}
use os1_proj.Memory.Links.{Segment, segment, has, Ordered, Ordered-weaken, has_bounds}
use os1_proj.Memory.Manager.{Owner, unused, user, system}

unfoldable pub same : Owner → Owner → Bool
same unused unused = true
same user user = true
same system system = true
same _ _ = false

pub record Tile : Type 0 where
  pub addr : Ptr
  pub size : ℕ
  pub owner : Owner

abbrev pub tile : Ptr → ℕ → Owner → Tile
tile a n o = record { addr = a; size = n; owner = o }

abbrev pub edge : Tile → Ptr
edge t = t.addr + t.size * block

abbrev pub Layout : Type 0
Layout = List Tile

-- The tiles cover the memory from `lo` to `hi` with no gap, and none is empty.
abbrev pub Tiles : ℕ → ℕ → Layout → Type 0
Tiles lo hi [] = lo ≡ hi
Tiles lo hi (t ∷ ts) = (t.addr ≡ lo) × (0 < t.size) × Tiles (edge t) hi ts

-- The segments of one owner.
unfoldable pub held : Owner → Layout → List Segment
held o [] = []
held o (t ∷ ts) = if same t.owner o then segment t.addr t.size ∷ held o ts else held o ts

-- Two unused tiles never meet.
abbrev pub joins : Tile → Layout → Bool
joins t [] = false
joins t (u ∷ ts) = same t.owner unused && same u.owner unused

abbrev pub IsCoalesced : Layout → Type 0
IsCoalesced [] = Unit {0}
IsCoalesced (t ∷ ts) = (joins t ts ≡ false) × IsCoalesced ts

-- The first `k` blocks of an unused tile go to `o`.
unfoldable pub remains : ℕ → Tile → Layout
remains k t = if t.size == k then [] else tile (t.addr + k * block) (t.size - k) unused ∷ []

unfoldable pub carve : Owner → ℕ → Tile → Layout → Layout
unfolding remains
carve o k t ts = tile t.addr k o ∷ remains k t ++ ts

-- First fit: the address of the tile that is given out, and the new layout.
unfoldable pub alloc : Owner → ℕ → Layout → Option (Ptr × Layout)
unfolding carve
alloc o k [] = none
alloc o k (t ∷ ts) =
    if same t.owner unused && leb k t.size
    then some (t.addr, carve o k t ts)
    else elim (alloc o k ts) [ none ↦ none | some (a, ts') ↦ some (a, t ∷ ts') ]

-- An unused tile takes in the unused tiles that follow it.
unfoldable pub grow : Ptr → ℕ → Layout → Layout
grow a n [] = tile a n unused ∷ []
grow a n (u ∷ ts) = if same u.owner unused then grow a (n + u.size) ts else tile a n unused ∷ u ∷ ts

-- A tile in front of a layout takes in the unused tiles that follow it, if it is unused itself.
unfoldable pub fuse : Tile → Layout → Layout
unfolding grow
fuse t ts = if same t.owner unused then grow t.addr t.size ts else t ∷ ts

-- The tile at `a` that `o` holds becomes unused, and joins its unused neighbours.
unfoldable pub release : Owner → Ptr → Layout → Option Layout
unfolding fuse
release o a [] = none
release o a (t ∷ ts) =
    if t.addr == a && same t.owner o
    then some (grow t.addr t.size ts)
    else elim (release o a ts) [ none ↦ none | some ts' ↦ some (fuse t ts') ]

-- The blocks of one owner.
unfoldable pub blocks_of : Owner → Layout → ℕ
blocks_of o [] = 0
blocks_of o (t ∷ ts) = if same t.owner o then t.size + blocks_of o ts else blocks_of o ts

pub same_refl : (o : Owner) → same o o ≡ true
unfolding same
same_refl unused = refl
same_refl user = refl
same_refl system = refl

pub same-eq : (o p : Owner) → same o p ≡ true → o ≡ p
unfolding same
same-eq unused unused e = refl
same-eq user user e = refl
same-eq system system e = refl
same-eq unused user e = cc
same-eq unused system e = cc
same-eq user unused e = cc
same-eq user system e = cc
same-eq system unused e = cc
same-eq system user e = cc

pub held-append : (o : Owner) (ts us : Layout) → held o (ts ++ us) ≡ held o ts ++ held o us
unfolding held
held-append o [] us = refl
held-append o (t ∷ ts) us = ground (arith, held-append o ts us)

pub held-Ordered :
    (o : Owner) (lo hi : ℕ) (ts : Layout) → Tiles lo hi ts → Ordered lo hi (held o ts)
unfolding held
held-Ordered o lo hi [] c = omega arith
held-Ordered o lo hi (t ∷ ts) c =
    ground (arith, held-Ordered o (edge t) hi ts c.2, Ordered-weaken (edge t) lo hi (held o ts))

-- Owners hold different addresses.
pub held_apart :
    (o p : Owner) (lo hi : ℕ) (x : Ptr) (ts : Layout)
    → Tiles lo hi ts
    → same o p ≡ false
    → has x (held o ts) ≡ true
    → has x (held p ts) ≡ false
unfolding held has
held_apart o p lo hi x [] c d i = refl
held_apart o p lo hi x (t ∷ ts) c d i = ground (
  arith,
  held_apart o p (edge t) hi x ts c.2 d,
  has_bounds x (edge t) hi (held o ts) (held-Ordered o (edge t) hi ts c.2),
  has_bounds x (edge t) hi (held p ts) (held-Ordered p (edge t) hi ts c.2),
  same-eq t.owner o,
  same-eq t.owner p,
  same_refl o,
)

pub Tiles-append :
    (lo mid hi : ℕ) (ts us : Layout) → Tiles lo mid ts → Tiles mid hi us → Tiles lo hi (ts ++ us)
Tiles-append lo mid hi [] us c d = rw c d
Tiles-append lo mid hi (t ∷ ts) us c d = (c.0, c.1, Tiles-append (edge t) mid hi ts us c.2 d)

pub Tiles-split :
    (lo hi : ℕ) (ts : Layout) (t : Tile) (us : Layout)
    → Tiles lo hi (ts ++ t ∷ us)
    → Tiles lo t.addr ts × (0 < t.size) × Tiles (edge t) hi us
Tiles-split lo hi [] t us c = (sym c.0, c.1, c.2)
Tiles-split lo hi (s ∷ ts) t us c =
    let r = Tiles-split (edge s) hi ts t us c.2 in ((c.0, c.1, r.0), r.1, r.2)

pub Tiles-le : (lo hi : ℕ) (ts : Layout) → Tiles lo hi ts → lo ≤ hi
Tiles-le lo hi [] c = omega arith
Tiles-le lo hi (t ∷ ts) c = omega (arith, Tiles-le (edge t) hi ts c.2)
