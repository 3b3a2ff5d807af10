-- ===== src/Memory/Manager/Steps.antt =====
-- The steps of memAlloc_ and memFree_: a tile is taken out of a list, or put into one.
use os1_proj.Prelude.{
  ℕ, ◌≤◌, ◌<◌, ◌≡◌, ◌⊎◌, refl, true, false, ◌∷◌, ◌++◌, arith, if◌then◌else◌, ◌==◌, sym, not,
  Bool-cases, inl, inr,
}
use os1_proj.Memory.{Ptr, null, find_by_pointer, insert_after}
use os1_proj.Memory.Links.{segment, has, has_bounds, has-append}
use os1_proj.Memory.Lists.{Listed}
use os1_proj.Memory.Insert.{insert_at, insert_at-Listed, insert_at-elsewhere}
use os1_proj.Memory.Manager.{Owner, Manager, fuel, head_of, enlist}
use os1_proj.Memory.Manager.Layout.{
  same, Tile, tile, edge, Layout, Tiles, held, held-append, held-Ordered, same_refl, Tiles-append,
  Tiles-split,
}
use os1_proj.Memory.Manager.State.{
  limit, Represents, IsLoose, relisted, relisted_self, relisted_bounds, apart_loose, lists-relisted,
  loose-IsGap, enlist_place,
}

pub held-tile :
    (p o : Owner) (a k : ℕ) (ts us : Layout)
    → held p (ts ++ tile a k o ∷ us)
      ≡ held p ts ++ (if same o p then segment a k ∷ held p us else held p us)
unfolding held
held-tile p o a k ts us = held-append p ts (tile a k o ∷ us)

enlist-relisted :
    (m : Manager) (o : Owner) (a q : Ptr)
    → find_by_pointer (fuel m) m.heap (head_of o m) a ≡ q
    → enlist m o a
      ≡ relisted m o (insert_at m.heap (head_of o m) q a).0 (insert_at m.heap (head_of o m) q a).1
unfolding enlist insert_at
enlist-relisted m o a q e =
    rw (e, enlist)
      (elim (Bool-cases (not (q == null))) [
        | inl t ↦ rw t (sym (relisted_self m o (insert_after m.heap q a)))
        | inr t ↦ rw t
      ])

module _ (m : Manager) (o : Owner) (ts us : Layout) (a k : ℕ) (lo : IsLoose m ts us a k) where
  enlisted :
      (p : Owner)
      → Listed (enlist m o a).heap (head_of p (enlist m o a)) (held p (ts ++ tile a k o ∷ us))
  enlisted p =
      rw (enlist-relisted m o a _ (enlist_place m o ts us a k lo), held-tile p o a k ts us)
        (lists-relisted m o _ _ (λ p. held p ts ++ held p us)
          (λ p. held p ts ++ (if same o p then segment a k ∷ held p us else held p us)) lo.lists
          (rw (same_refl o) (
            insert_at-Listed m.heap (head_of o m) m.start (limit m) a k (held o ts) (held o us)
              (loose-IsGap m o ts us a k lo) (lo.lists o) lo.size))
          (λ p e. rw e)
          (λ p x e i.
            let away =
              apart_loose o p m.start (limit m) a k x ts us lo.below lo.above lo.size_pos e i in
            insert_at-elsewhere m.heap (head_of o m) m.start (limit m) a k (held o ts) (held o us)
              (loose-IsGap m o ts us a k lo) (lo.lists o) lo.size x away.0 away.1 away.2)
          p)

  -- Putting a loose tile into a list makes the manager whole again.
  pub enlist-Represents : Represents (enlist m o a) (ts ++ tile a k o ∷ us)
  enlist-Represents =
      let e = enlist-relisted m o a _ (enlist_place m o ts us a k lo) in
      let b = relisted_bounds m o in
      record {
        lists = enlisted;
        tiles =
            rw (e, (b _ _).0, (b _ _).1)
              (Tiles-append m.start a (limit m) ts (tile a k o ∷ us) lo.below
                (refl, lo.size_pos, lo.above));
        pos = rw (e, (b _ _).0) lo.pos;
        bound = rw (e, (b _ _).0, (b _ _).1) lo.bound;
      }

-- The addresses of another owner lie off the tile at `t`, and off the lists of its owner.
pub off_tile :
    (o p : Owner) (lo hi : ℕ) (x : Ptr) (ts : Layout) (t : Tile) (us : Layout)
    → Tiles lo hi (ts ++ t ∷ us)
    → same o p ≡ false
    → has x (held p ts ++ held p us) ≡ true
    → ((x < t.addr) ⊎ (edge t ≤ x)) × (has x (held o ts) ≡ false) × (has x (held o us) ≡ false)
off_tile o p lo hi x ts t us c e i =
    let (b, z, d) = Tiles-split lo hi ts t us c in
    let away = apart_loose o p lo hi t.addr t.size x ts us b d z e i in
    (
      ground (
        arith,
        has-append x (held p ts) (held p us),
        has_bounds x lo t.addr (held p ts) (held-Ordered p lo t.addr ts b),
        has_bounds x (edge t) hi (held p us) (held-Ordered p (edge t) hi us d),
      ),
      away.1,
      away.2,
    )
