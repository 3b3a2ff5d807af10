-- ===== src/Memory/Manager/Release.antt =====
-- memFree_ as a whole: every branch.
use os1_proj.Prelude.{
  ℕ, suc, ◌+◌, ◌*◌, ◌≡◌, ◌≢◌, refl, true, false, [], ◌∷◌, ◌++◌, arith, ◌==◌, sym, ap, ◌∙◌,
  Bool-cases, inl, inr, subst, ◌&&◌, some, ◌⊎◌, ◌-w◌, length-append, ==_false,
}
use mathlib.Core.List.{append_assoc}
use mathlib.Core.Bool.{false≢true}
use os1_proj.Memory.{Ptr, block, null, find_by_pointer}
use os1_proj.Memory.Links.{segment, has, first, Ordered-extend}
use os1_proj.Memory.Search.{
  find_by_pointer-last, find_by_pointer-has, AllUpTo-append, Ordered-AllUpTo,
}
use os1_proj.Memory.Manager.{
  Owner, unused, Manager, fuel, head_of, coalesce, mem_free, enlist, delist, err_mem_free,
}
use os1_proj.Memory.Manager.Layout.{
  same, Tile, tile, Layout, held, grow, release, IsCoalesced, same-eq, Tiles-le,
}
use os1_proj.Memory.Manager.State.{limit, Represents, Ordered-length}
use os1_proj.Memory.Manager.Steps.{enlist-Represents}
use os1_proj.Memory.Manager.Taking.{parts, delist-IsLoose, own_list, own-IsGap}
use os1_proj.Memory.Manager.Free.{coalesce-Represents, last-append}
use os1_proj.Memory.Manager.Growing.{fuse_all, release-fuse_all}
use os1_proj.Memory.Manager.Coalesced.{release-IsCoalesced}

-- A layout split at the tile that an owner holds at an address.
pub data Holds (o : Owner) (a : Ptr) (ts : Layout) : Type 0 where
  holds : (us : Layout) (n : ℕ) (vs : Layout) → ts ≡ us ++ tile a n o ∷ vs → Holds o a ts

Holds-cons : (o : Owner) (a : Ptr) (t : Tile) (ts : Layout) → Holds o a ts → Holds o a (t ∷ ts)
Holds-cons o a t ts (holds us n vs e) = holds (t ∷ us) n vs (rw e)

pub find_held : (o : Owner) (a : Ptr) (ts : Layout) → has a (held o ts) ≡ true → Holds o a ts
unfolding held has
find_held o a [] h = absurd (cc)
find_held o a (t ∷ ts) h = elim (Bool-cases (same t.owner o && (a == t.addr))) [
  | inl e ↦ holds [] t.size ts (ap (λ z. z ∷ ts) (as_held (ground arith) (ground arith)))
  | inr e ↦ Holds-cons o a t ts (find_held o a ts (ground arith))
]
  where
    as_held : t.addr ≡ a → same t.owner o ≡ true → t ≡ tile a t.size o
    as_held p q = λ i. tile (p i) t.size (same-eq t.owner o q i)

IsCoalesced-front :
    (us : Layout) (t : Tile) (vs : Layout) → IsCoalesced (us ++ t ∷ vs) → IsCoalesced us
IsCoalesced-front [] t vs ic = tt
IsCoalesced-front (u ∷ []) t vs ic = (refl, tt)
IsCoalesced-front (u ∷ w ∷ us) t vs ic = (ic.0, IsCoalesced-front (w ∷ us) t vs ic.1)

module _ (m : Manager) (o : Owner) (us : Layout) (a n : ℕ) (vs : Layout)
    (r : Represents m (us ++ tile a n o ∷ vs)) where
  -- The header is found, so the pointer is accepted.
  accepted : find_by_pointer (fuel m) m.heap (head_of o m) a ≡ a
  accepted =
      let gap = own-IsGap m o us vs a n r in
      let li = own_list m o us vs a n r in
      let p = parts m o us vs a n r in
      let whole = append_assoc (held o us) (segment a n ∷ []) (held o vs) in
      rw (li.at_head, ← whole)
        (find_by_pointer-last (fuel m) m.heap a (limit m) (held o us ++ segment a n ∷ [])
            (held o vs)
            (AllUpTo-append a (held o us) (segment a n ∷ [])
              (Ordered-AllUpTo m.start a (held o us) r.pos
                (Ordered-extend m.start a (suc a) (held o us) (omega arith) gap.below))
              (omega (arith, gap.pos, gap.at_least), omega arith, tt))
            gap.above (rw (← whole) at li.links)
            (omega (
              arith,
              length-append (held o us) (segment a n ∷ []),
              Ordered-length m.start a (held o us) gap.below,
              Tiles-le (a + n * block) (limit m) vs p.2,
            ))
          ∙ last-append null (held o us) (segment a n))

  mem_free-accepted : mem_free m o (a + block) ≡ (coalesce (enlist (delist m o a) unused a) a, 0)
  unfolding mem_free
  mem_free-accepted =
      let p = parts m o us vs a n r in
      let seg : (a + block) -w block ≡ a =
        omega (arith, Tiles-le (a + n * block) (limit m) vs p.2, r.bound) in
      let own : (a == a) ≡ true = ground arith in
      let some_addr : (a + block == null) ≡ false = ground arith in
      rw (seg, accepted, own, some_addr, mem_free)

  freed :
      IsCoalesced us
      → Represents (coalesce (enlist (delist m o a) unused a) a) (fuse_all us (grow a n vs))
  freed ic =
      coalesce-Represents (enlist (delist m o a) unused a) us a n vs
        (enlist-Represents (delist m o a) unused us vs a n (delist-IsLoose m o us vs a n r)) ic

-- What a successful `memFree_` leaves: a layout with the tile released, again with no two unused
-- tiles side by side.
pub record Frees (m : Manager) (o : Owner) (a : Ptr) (ts us : Layout) : Type 0 where
  pub released : release o a ts ≡ some us
  pub status : (mem_free m o (a + block)).1 ≡ 0
  pub represents : Represents (mem_free m o (a + block)).0 us
  pub coalesced : IsCoalesced us

holds-Frees :
    (m : Manager) (o : Owner) (us : Layout) (a n : ℕ) (vs : Layout)
    → Represents m (us ++ tile a n o ∷ vs)
    → IsCoalesced (us ++ tile a n o ∷ vs)
    → Frees m o a (us ++ tile a n o ∷ vs) (fuse_all us (grow a n vs))
holds-Frees m o us a n vs r ic =
    let ic' = IsCoalesced-front us (tile a n o) vs ic in
    let out = release-fuse_all o m.start (limit m) us a n vs r.tiles in
    record {
      released = out;
      status = rw (mem_free-accepted m o us a n vs r);
      represents = rw (mem_free-accepted m o us a n vs r) (freed m o us a n vs r ic');
      coalesced = release-IsCoalesced o a _ _ ic out;
    }

-- For a manager that stands for a coalesced layout, freeing the block behind a header that `o` holds
-- releases that tile of the layout, joins it with its unused neighbours, and returns 0; what is left
-- is coalesced.
pub mem_free-release :
    (m : Manager) (o : Owner) (a : Ptr) (ts : Layout)
    → Represents m ts
    → IsCoalesced ts
    → has a (held o ts) ≡ true
    → (us : Layout) × Frees m o a ts us
mem_free-release m o a ts r ic h = elim (find_held o a ts h) [
  | holds us n vs split ↦ (
    fuse_all us (grow a n vs),
    subst (λ z. Frees m o a z (fuse_all us (grow a n vs))) (sym split)
        (holds-Frees m o us a n vs (rw split at r) (rw split at ic)),
  )
]

-- For a manager that stands for a layout, a pointer that is neither null nor the first block's, and
-- stands behind no header that `o` holds, is refused, and nothing changes.
pub mem_free-rejected :
    (m : Manager) (o : Owner) (p : Ptr) (ts : Layout)
    → Represents m ts
    → p ≢ null
    → p -w block ≢ null
    → has (p -w block) (held o ts) ≡ false
    → mem_free m o p ≡ (m, err_mem_free)
unfolding mem_free
mem_free-rejected m o p ts r ne ne' out =
    let li = r.lists o in
    let found = find_by_pointer-has (fuel m) m.heap (p -w block) (held o ts) li.links in
    let missed : (p -w block == find_by_pointer (fuel m) m.heap (head_of o m) (p -w block))
        ≡ false =
      rw li.at_head (==_false _ _ (λ e. missing found e)) in
    let given : (p == null) ≡ false = ground arith in rw (given, missed, mem_free)
  where
    missing :
        (find_by_pointer (fuel m) m.heap (first (held o ts) null) (p -w block) ≡ null)
          ⊎ (has (find_by_pointer (fuel m) m.heap (first (held o ts) null) (p -w block)) (held o ts)
              ≡ true)
        → p -w block ≡ find_by_pointer (fuel m) m.heap (first (held o ts) null) (p -w block)
        → ⊥
    missing (inl e) q = ne' (q ∙ e)
    missing (inr h) q = false≢true (sym out ∙ ap (λ z. has z (held o ts)) q ∙ h)

-- Freeing null does nothing and succeeds.
pub mem_free-null : (m : Manager) (o : Owner) → mem_free m o null ≡ (m, 0)
unfolding mem_free
mem_free-null m o = refl
