-- ===== src/Memory/Manager/Taking.antt =====
-- "remove from process" and "remove from free memory": a tile is taken out of its owner's list.
use os1_proj.Prelude.{
  ℕ, suc, ◌+◌, ◌-◌, ◌*◌, ◌≤◌, ◌<◌, ◌≡◌, refl, true, false, ◌∷◌, ◌++◌, arith, ◌==◌, Bool-cases, inl,
  inr,
}
use os1_proj.Memory.{Ptr, block, null, remove, reduce}
use os1_proj.Memory.Links.{segment, has, Ordered, Ordered-weaken, Links-split}
use os1_proj.Memory.Lists.{
  Listed, remove-Listed, remove-size, remove-elsewhere, reduce-Listed, reduce-elsewhere,
}
use os1_proj.Memory.Splice.{IsGap}
use os1_proj.Memory.Manager.{Owner, unused, Manager, head_of, detach, delist}
use os1_proj.Memory.Manager.Layout.{
  same, tile, Layout, Tiles, held, remains, held-Ordered, same_refl, Tiles-split, Tiles-le,
}
use os1_proj.Memory.Manager.State.{
  limit, Represents, IsLoose, relisted, relisted-heap, relisted_bounds, lists-relisted,
}
use os1_proj.Memory.Manager.Steps.{held-tile, off_tile}

delist-relisted :
    (m : Manager) (o : Owner) (a : Ptr)
    → delist m o a
      ≡ relisted m o (remove m.heap (head_of o m) a).0 (remove m.heap (head_of o m) a).1
unfolding delist
delist-relisted m o a = refl

module _ (m : Manager) (o : Owner) (ts us : Layout) (a n : ℕ)
    (r : Represents m (ts ++ tile a n o ∷ us)) where
  pub parts : Tiles m.start a ts × (0 < n) × Tiles (a + n * block) (limit m) us
  parts = Tiles-split m.start (limit m) ts (tile a n o) us r.tiles

  pub own_list : Listed m.heap (head_of o m) (held o ts ++ segment a n ∷ held o us)
  own_list = rw (held-tile o o a n ts us, same_refl o) at (r.lists o)

  pub other_list :
      (p : Owner) → same o p ≡ false → Listed m.heap (head_of p m) (held p ts ++ held p us)
  other_list p e = rw (held-tile p o a n ts us, e) at (r.lists p)

  pub own_rest : Ordered (a + n * block) (limit m) (held o us)
  own_rest = held-Ordered o (a + n * block) (limit m) us parts.2

  pub own-IsGap : IsGap m.start (limit m) a (held o ts) (held o us)
  own-IsGap = record {
    pos = r.pos;
    at_least = Tiles-le m.start a ts parts.0;
    below = held-Ordered o m.start a ts parts.0;
    above =
        Ordered-weaken (a + n * block) (suc a) (limit m) (held o us) (omega (arith, parts.1))
          own_rest;
  }

  pub own_size : (m.heap a).size ≡ n
  own_size = (Links-split m.heap null null (held o ts) (segment a n ∷ held o us) own_list.links).1.2

  -- Taking a tile out of its owner's list makes it loose.
  pub delist-IsLoose : IsLoose (delist m o a) ts us a n
  delist-IsLoose =
      let b = relisted_bounds m o in
      rw (delist-relisted m o a) (record {
        lists =
            lists-relisted m o _ _ (λ p. held p (ts ++ tile a n o ∷ us))
              (λ p. held p ts ++ held p us) r.lists
              (remove-Listed m.heap (head_of o m) m.start (limit m) (segment a n) (held o ts)
                (held o us) own-IsGap own_list)
              (λ p e. rw (held-tile p o a n ts us, e))
              (λ p x e i.
                let i' = rw (held-tile p o a n ts us, e) at i in
                let off = off_tile o p m.start (limit m) x ts (tile a n o) us r.tiles e i' in
                remove-elsewhere m.heap (head_of o m) m.start (limit m) (segment a n) (held o ts)
                  (held o us) own-IsGap own_list x (ground (arith, off.0, parts.1)) off.1 off.2);
        below = rw (b _ _).0 parts.0;
        above = rw ((b _ _).0, (b _ _).1) parts.2;
        size = rw (relisted-heap m o _ (remove m.heap (head_of o m) a).1) (
            remove-size m.heap (head_of o m) m.start (limit m) (segment a n) (held o ts) (held o us)
              own-IsGap own_list);
        pos = rw (b _ _).0 r.pos;
        size_pos = parts.1;
        bound = rw ((b _ _).0, (b _ _).1) r.bound;
      })

module _ (m : Manager) (ts us : Layout) (a n k : ℕ) (r : Represents m (ts ++ tile a n unused ∷ us))
    (pos : 0 < k) where
  detach-whole : n ≡ k → detach m a k ≡ delist m unused a
  unfolding detach delist
  detach-whole e = rw (own_size m unused ts us a n r, e) (ground arith)

  detach-part :
      k < n
      → detach m a k
        ≡ relisted m unused
            (reduce m.heap (head_of unused m) a k).1
            (reduce m.heap (head_of unused m) a k).2
  unfolding detach
  detach-part h = rw (own_size m unused ts us a n r) (ground arith)

  module _ (h : k < n) where
    reduced :
        Listed
          (reduce m.heap (head_of unused m) a k).1
          (reduce m.heap (head_of unused m) a k).2
          (held unused ts ++ segment (a + k * block) (n - k) ∷ held unused us)
        × (((reduce m.heap (head_of unused m) a k).1 a).size ≡ k)
    reduced =
        let z =
          reduce-Listed m.heap (head_of unused m) m.start (limit m) (segment a n) k (a + k * block)
            (held unused ts) (held unused us) (own-IsGap m unused ts us a n r)
            (own_rest m unused ts us a n r) (own_list m unused ts us a n r) pos h refl r.bound in
        (z.1, z.2)

    reduced-elsewhere :
        (p : Owner) (x : Ptr)
        → same unused p ≡ false
        → has x (held p (ts ++ tile a n unused ∷ us)) ≡ true
        → (reduce m.heap (head_of unused m) a k).1 x ≡ m.heap x
    reduced-elsewhere p x e i =
        let i' = rw (held-tile p unused a n ts us, e) at i in
        let off = off_tile unused p m.start (limit m) x ts (tile a n unused) us r.tiles e i' in
        reduce-elsewhere m.heap (head_of unused m) m.start (limit m) (segment a n) k (a + k * block)
          (held unused ts) (held unused us) (own-IsGap m unused ts us a n r)
          (own_rest m unused ts us a n r) (own_list m unused ts us a n r) pos h refl r.bound x
          (ground (arith, off.0)) (ground (arith, off.0)) off.1 off.2

    detach-part-IsLoose : IsLoose (detach m a k) ts (tile (a + k * block) (n - k) unused ∷ us) a k
    unfolding held same
    detach-part-IsLoose =
        let b = relisted_bounds m unused in
        let c = parts m unused ts us a n r in
        rw (detach-part h) (record {
          lists =
              lists-relisted m unused _ _ (λ p. held p (ts ++ tile a n unused ∷ us))
                (λ p. held p ts ++ held p (tile (a + k * block) (n - k) unused ∷ us)) r.lists
                reduced.0 (λ p e. rw (held-tile p unused a n ts us, e)) reduced-elsewhere;
          below = c.0;
          above = ground (arith, c.2);
          size = reduced.1;
          pos = r.pos;
          size_pos = pos;
          bound = r.bound;
        })

  -- Taking `k` blocks out of an unused tile leaves the rest of it unused.
  pub detach-IsLoose : k ≤ n → IsLoose (detach m a k) ts (remains k (tile a n unused) ++ us) a k
  unfolding remains
  detach-IsLoose h = elim (Bool-cases (n == k)) [
    | inl e ↦
        let whole : n ≡ k = ground arith in
        rw (e, detach-whole whole) (rw whole at (delist-IsLoose m unused ts us a n r))
    | inr e ↦ rw e (detach-part-IsLoose (ground arith))
  ]
