-- ===== src/Memory/Manager/Merging.antt =====
-- MSH::merge on layouts: an unused tile takes in the unused tiles behind it.
use os1_proj.Prelude.{
  ℕ, suc, ◌+◌, ◌*◌, ◌<◌, ◌≡◌, refl, true, false, ◌∷◌, ◌++◌, arith, ◌==◌, not, ◌⊎◌, ◌&&◌, ◌+w◌, ◌*w◌,
}
use os1_proj.Memory.{Ptr, block, null, Heap, merge_step}
use os1_proj.Memory.Links.{segment, has, first, Ordered, Ordered-weaken, Links-split}
use os1_proj.Memory.Lists.{Listed}
use os1_proj.Memory.Merge.{merge_step-Listed, merge_step-elsewhere}
use os1_proj.Memory.Splice.{IsGap}
use os1_proj.Memory.Manager.{Owner, unused, Manager, head_of}
use os1_proj.Memory.Manager.Layout.{
  same, tile, Layout, Tiles, held, held-Ordered, Tiles-append, Tiles-le,
}
use os1_proj.Memory.Manager.State.{limit, Represents, lists-relisted}
use os1_proj.Memory.Manager.Steps.{held-tile, off_tile}
use os1_proj.Memory.Manager.Taking.{own_list, own_size, parts}

abbrev pub with_heap : Manager → Heap → Manager
with_heap m h = record m { heap = h }

held-unused :
    (a k : ℕ) (us : Layout) → held unused (tile a k unused ∷ us) ≡ segment a k ∷ held unused us
unfolding held same
held-unused a k us = refl

held-other :
    (p : Owner) (a k : ℕ) (us : Layout)
    → same unused p ≡ false
    → held p (tile a k unused ∷ us) ≡ held p us
unfolding held
held-other p a k us e = rw e

module _ (m : Manager) (us vs : Layout) (a n k : ℕ)
    (r : Represents m (us ++ tile a n unused ∷ tile (a + n * block) k unused ∷ vs)) where
  back :
      Tiles m.start a us
      × (0 < n)
      × Tiles (a + n * block) (limit m) (tile (a + n * block) k unused ∷ vs)
  back = parts m unused us (tile (a + n * block) k unused ∷ vs) a n r

  rest : Ordered (a + (n + k) * block) (limit m) (held unused vs)
  rest =
      Ordered-weaken (a + n * block + k * block) (a + (n + k) * block) (limit m) (held unused vs)
        (omega arith) (held-Ordered unused (a + n * block + k * block) (limit m) vs back.2.2)

  gap : IsGap m.start (limit m) a (held unused us) (held unused vs)
  gap = record {
    pos = r.pos;
    at_least = Tiles-le m.start a us back.0;
    below = held-Ordered unused m.start a us back.0;
    above =
        Ordered-weaken (a + (n + k) * block) (suc a) (limit m) (held unused vs)
          (omega (arith, back.1)) rest;
  }

  listed :
      Listed m.heap
        (head_of unused m)
        (held unused us ++ segment a n ∷ segment (a + n * block) k ∷ held unused vs)
  listed =
      rw (held-unused (a + n * block) k vs) at
        (own_list m unused us (tile (a + n * block) k unused ∷ vs) a n r)

  joint : a + n * block + k * block ≡ a + (n + k) * block
  joint = omega arith

  later :
      (x : Ptr)
      → has x (segment (a + n * block) k ∷ held unused vs) ≡ false
      → has x (held unused vs) ≡ false
  unfolding has
  later x e = ground arith

  pub merge_step-Represents :
      Represents (with_heap m (merge_step m.heap a)) (us ++ tile a (n + k) unused ∷ vs)
  unfolding same
  merge_step-Represents = record {
    lists =
        lists-relisted m unused (merge_step m.heap a) (head_of unused m)
          (λ p. held p (us ++ tile a n unused ∷ tile (a + n * block) k unused ∷ vs))
          (λ p. held p (us ++ tile a (n + k) unused ∷ vs)) r.lists
          (rw (held-tile unused unused a (n + k) us vs) (
            merge_step-Listed m.heap (head_of unused m) m.start (limit m) a n k (held unused us)
              (held unused vs) gap back.1 rest r.bound listed))
          (λ p e. rw (
            held-tile p unused a (n + k) us vs,
            held-tile p unused a n us (tile (a + n * block) k unused ∷ vs),
            e,
            held-other p (a + n * block) k vs e,
          ))
          (λ p x e i.
            let i' = rw (held-tile p unused a n us (tile (a + n * block) k unused ∷ vs), e) at i in
            let off =
              off_tile unused p m.start (limit m) x us (tile a n unused)
                (tile (a + n * block) k unused ∷ vs) r.tiles e i' in
            let off' = rw (held-unused (a + n * block) k vs) at off.2 in
            merge_step-elsewhere m.heap (head_of unused m) m.start (limit m) a n k (held unused us)
              (held unused vs) gap back.1 rest r.bound listed x (ground (arith, off.0, back.1))
              off.1 (later x off'));
    tiles =
        Tiles-append m.start a (limit m) us (tile a (n + k) unused ∷ vs) back.0
          (refl, omega (arith, back.1), rw joint at back.2.2);
    pos = r.pos;
    bound = r.bound;
  }

-- Where the tile behind is unused, the loop goes on; elsewhere it stops.
module _ (m : Manager) (us : Layout) (a n : ℕ) where
  next-first :
      (vs : Layout)
      → Represents m (us ++ tile a n unused ∷ vs)
      → (m.heap a).next ≡ first (held unused vs) null
  next-first vs r =
      (Links-split m.heap null null (held unused us) (segment a n ∷ held unused vs)
        (own_list m unused us vs a n r).links).1.1

  pub goes_on :
      (k : ℕ) (vs : Layout)
      → Represents m (us ++ tile a n unused ∷ tile (a + n * block) k unused ∷ vs)
      → (not ((m.heap a).next == null) && ((a +w (m.heap a).size *w block) == (m.heap a).next))
        ≡ true
  unfolding first
  goes_on k vs r =
      let p = parts m unused us (tile (a + n * block) k unused ∷ vs) a n r in
      rw
        (
          next-first (tile (a + n * block) k unused ∷ vs) r,
          held-unused (a + n * block) k vs,
          own_size m unused us (tile (a + n * block) k unused ∷ vs) a n r,
        )
        (ground (
          arith,
          Tiles-le (a + n * block + k * block) (limit m) vs p.2.2,
          r.bound,
          r.pos,
          Tiles-le m.start a us p.0,
        ))

  pub stops :
      (vs : Layout)
      → Represents m (us ++ tile a n unused ∷ vs)
      → (first (held unused vs) null ≡ null) ⊎ (a + n * block < first (held unused vs) null)
      → (not ((m.heap a).next == null) && ((a +w (m.heap a).size *w block) == (m.heap a).next))
        ≡ false
  stops vs r e =
      let p = parts m unused us vs a n r in
      rw (next-first vs r, own_size m unused us vs a n r)
        (ground (arith, Tiles-le (a + n * block) (limit m) vs p.2, r.bound))
