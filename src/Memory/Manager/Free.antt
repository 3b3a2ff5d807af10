-- ===== src/Memory/Manager/Free.antt =====
-- memFree_ frees a tile of the layout and joins it with its unused neighbours.
use os1_proj.Prelude.{
  ℕ, ◌+◌, ◌*◌, ◌≤◌, ◌<◌, ◌≡◌, refl, false, List, [], ◌∷◌, ◌++◌, arith, length, ◌==◌, ap, ◌∙◌,
  Bool-cases, inl, inr, subst,
}
use mathlib.Core.List.{append_assoc}
use os1_proj.Memory.{Ptr, block, null, merge}
use os1_proj.Memory.Links.{Segment, segment, last, Links-split}
use os1_proj.Memory.Manager.{unused, Manager, fuel, coalesce}
use os1_proj.Memory.Manager.Layout.{
  same, tile, edge, Layout, Tiles, held, grow, IsCoalesced, Tiles-le,
}
use os1_proj.Memory.Manager.State.{limit, Represents}
use os1_proj.Memory.Manager.Steps.{held-tile}
use os1_proj.Memory.Manager.Taking.{parts, own_list}
use os1_proj.Memory.Manager.Merging.{with_heap}
use os1_proj.Memory.Manager.Growing.{merge_loop-grow, fuse_all, plain, joined, find-Fused}

Tiles-length : (lo hi : ℕ) (ts : Layout) → Tiles lo hi ts → lo + length ts * block ≤ hi
Tiles-length lo hi [] c = omega arith
Tiles-length lo hi (t ∷ ts) c = omega (arith, Tiles-length (edge t) hi ts c.2)

pub last-append : (q : Ptr) (xs : List Segment) (s : Segment) → last q (xs ++ s ∷ []) ≡ s.addr
unfolding last
last-append q [] s = refl
last-append q (x ∷ xs) s = last-append x.addr xs s

-- A tile that has grown still stands at its address.
grow-shape :
    (a n : ℕ) (ts : Layout) → (k : ℕ) × (us : Layout) × (grow a n ts ≡ tile a k unused ∷ us)
unfolding grow
grow-shape a n [] = (n, [], refl)
grow-shape a n (u ∷ ts) = elim (Bool-cases (same u.owner unused)) [
  | inl e ↦ rw e (grow-shape a (n + u.size) ts)
  | inr e ↦ rw e (n, u ∷ ts, refl)
]

module _ (m : Manager) (us : Layout) (a n : ℕ) (vs : Layout)
    (r : Represents m (us ++ tile a n unused ∷ vs)) where
  prev-last : (m.heap a).prev ≡ last null (held unused us)
  prev-last =
      (Links-split m.heap null null (held unused us) (segment a n ∷ held unused vs)
        (own_list m unused us vs a n r).links).1.0

  short : length vs < fuel m
  short =
      let p = parts m unused us vs a n r in
      omega (arith, Tiles-length (a + n * block) (limit m) vs p.2, Tiles-le m.start a us p.0)

  first_merge-Represents : Represents (with_heap m (merge (fuel m) m.heap a).0) (us ++ grow a n vs)
  unfolding merge
  first_merge-Represents = merge_loop-grow (fuel m) 0 m us a n vs short r

last-nil : (q : Ptr) → last q [] ≡ q
unfolding last
last-nil q = refl

last-joined :
    (us ts : Layout) (c j : ℕ) (ws : Layout)
    → us ≡ ts ++ tile c j unused ∷ ws
    → held unused ws ≡ []
    → last null (held unused us) ≡ c
unfolding same
last-joined us ts c j ws split h =
    rw (split, held-tile unused unused c j ts ws, h)
      (last-append null (held unused ts) (segment c j))

above-null :
    (m : Manager) (ts : Layout) (c j : ℕ) (ws : Layout)
    → Represents m (ts ++ tile c j unused ∷ ws)
    → (c == null) ≡ false
above-null m ts c j ws r =
    ground (arith, Tiles-le m.start c ts (parts m unused ts ws c j r).0, r.pos)

-- "merge" in memFree_ grows the freed tile, and fuses what stands before it.
module _ (m : Manager) (us : Layout) (a n : ℕ) (vs : Layout)
    (r : Represents m (us ++ tile a n unused ∷ vs)) (ic : IsCoalesced us) where
  grown : Represents (with_heap m (merge (fuel m) m.heap a).0) (us ++ grow a n vs)
  grown = first_merge-Represents m us a n vs r

  grown-prev : ((merge (fuel m) m.heap a).0 a).prev ≡ last null (held unused us)
  grown-prev =
      let (k, ws, e) = grow-shape a n vs in
      prev-last (with_heap m (merge (fuel m) m.heap a).0) us a k ws (rw e at grown)

  pub coalesce-Represents : Represents (coalesce m a) (fuse_all us (grow a n vs))
  unfolding coalesce
  coalesce-Represents = elim (find-Fused us (grow a n vs) ic) [
    | plain h k ↦ rw (grown-prev, h, k, last-nil null) grown
    | joined ts c j ws split h k ↦
        let front =
          ap (λ z. z ++ grow a n vs) split ∙ append_assoc ts (tile c j unused ∷ ws) (grow a n vs) in
        let r' = subst (Represents (with_heap m (merge (fuel m) m.heap a).0)) front grown in
        rw
          (
            grown-prev,
            k,
            last-joined us ts c j ws split h,
            above-null _ ts c j (ws ++ grow a n vs) r',
          )
          (first_merge-Represents _ ts c j (ws ++ grow a n vs) r')
  ]
