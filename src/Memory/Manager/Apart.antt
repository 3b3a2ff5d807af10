-- ===== src/Memory/Manager/Apart.antt =====
-- What memAlloc_ gives out overlaps nothing that is in use, and other owners keep what they hold.
use os1_proj.Prelude.{
  ℕ, suc, ◌+◌, ◌*◌, ◌≤◌, ◌<◌, ◌≡◌, ◌≢◌, false, List, [], ◌∷◌, ◌++◌, arith, word, ap, ◌∙◌, inl, inr,
  some, ◌⊎◌, Option-cases,
}
use os1_proj.Memory.{Ptr, block, null}
use os1_proj.Memory.Links.{Segment, stop, Ordered, Ordered-le}
use os1_proj.Memory.Manager.{Owner, unused, Manager, mem_alloc}
use os1_proj.Memory.Manager.Layout.{
  same, Tile, tile, edge, Layout, held, held-append, held-Ordered, remains, carve, alloc, Tiles,
  Tiles-split,
}
use os1_proj.Memory.Manager.State.{limit, Represents}
use os1_proj.Memory.Manager.Alloc.{mem_alloc-alloc, missing, fit, find-Fit}

-- No segment of the list meets the addresses from `lo` up to `hi`.
abbrev pub AllApart : ℕ → ℕ → List Segment → Type 0
AllApart lo hi [] = Unit {0}
AllApart lo hi (s ∷ xs) = ((stop s ≤ lo) ⊎ (hi ≤ s.addr)) × AllApart lo hi xs

AllApart-append :
    (lo hi : ℕ) (xs ys : List Segment)
    → AllApart lo hi xs
    → AllApart lo hi ys
    → AllApart lo hi (xs ++ ys)
AllApart-append lo hi [] ys p q = q
AllApart-append lo hi (s ∷ xs) ys p q = (p.0, AllApart-append lo hi xs ys p.1 q)

AllApart-below : (a lo hi : ℕ) (xs : List Segment) → Ordered a lo xs → AllApart lo hi xs
AllApart-below a lo hi [] o = tt
AllApart-below a lo hi (s ∷ xs) o =
    (inl (Ordered-le (stop s) lo xs o.2), AllApart-below (stop s) lo hi xs o.2)

AllApart-above : (lo hi b c : ℕ) (xs : List Segment) → hi ≤ b → Ordered b c xs → AllApart lo hi xs
AllApart-above lo hi b c [] h o = tt
AllApart-above lo hi b c (s ∷ xs) h o =
    (inr (omega arith), AllApart-above lo hi (stop s) c xs (omega arith) o.2)

held-remains :
    (p : Owner) (k : ℕ) (t : Tile) (vs : Layout)
    → same unused p ≡ false
    → held p (remains k t ++ vs) ≡ held p vs
unfolding remains held
held-remains p k t vs e = ground arith

held-skip :
    (p : Owner) (t : Tile) (ts : Layout) → same t.owner p ≡ false → held p (t ∷ ts) ≡ held p ts
unfolding held
held-skip p t ts e = rw e

pub alloc_apart :
    (o p : Owner) (k lo hi : ℕ) (ts us : Layout) (a : Ptr)
    → same unused p ≡ false
    → Tiles lo hi ts
    → alloc o k ts ≡ some (a, us)
    → AllApart a (a + k * block) (held p ts) × (same o p ≡ false → held p us ≡ held p ts)
unfolding carve
alloc_apart o p k lo hi ts us a d c e = elim (find-Fit o k ts) [
  | missing none_left below ↦ absurd (cc)
  | fit us' t vs split free fits below found ↦
      let addr : t.addr ≡ a = cc in
      let rest : us' ++ carve o k t vs ≡ us = cc in
      let parts = Tiles-split lo hi us' t vs (rw split at c) in
      let skipped : same t.owner p ≡ false = rw free d in
      let whole : held p ts ≡ held p us' ++ held p vs =
        ap (held p) split
        ∙ held-append p us' (t ∷ vs)
        ∙ ap (λ z. held p us' ++ z) (held-skip p t vs skipped) in
      (
        rw (← addr, whole)
            (AllApart-append t.addr (t.addr + k * block) (held p us') (held p vs)
              (AllApart-below lo t.addr (t.addr + k * block) (held p us')
                (held-Ordered p lo t.addr us' parts.0))
              (AllApart-above t.addr (t.addr + k * block) (edge t) hi (held p vs) (omega arith)
                (held-Ordered p (edge t) hi vs parts.2))),
        λ other.
            rw (← rest, whole)
              (held-append p us' (carve o k t vs)
                ∙ ap (λ z. held p us' ++ z)
                    (held-skip p (tile t.addr k o) (remains k t ++ vs) other
                      ∙ held-remains p k t vs d)),
      )
]

-- What `memAlloc_` gives out for fewer than 2 ^ 64 - 1 blocks, header included, overlaps no segment
-- that the user or the system holds, and an owner other than the caller holds afterwards exactly
-- what it held.
pub mem_alloc_apart :
    (m : Manager) (o p : Owner) (n : ℕ) (ts : Layout)
    → suc n < word
    → same unused p ≡ false
    → Represents m ts
    → (mem_alloc m o n).1 ≢ null
    → (a : Ptr) × (us : Layout) × ((mem_alloc m o n).1 ≡ a + block)
      × Represents (mem_alloc m o n).0 us
      × AllApart a (a + suc n * block) (held p ts)
      × (same o p ≡ false → held p us ≡ held p ts)
mem_alloc_apart m o p n ts small d r given = elim (Option-cases (alloc o (suc n) ts)) [
  | inl e ↦ absurd (given (rw e at (mem_alloc-alloc m o n small ts r)).0)
  | inr ((a, us), e) ↦
      let out = rw e at (mem_alloc-alloc m o n small ts r) in
      let apart = alloc_apart o p (suc n) m.start (limit m) ts us a d r.tiles e in
      (a, us, out.0, out.1, apart.0, apart.1)
]
