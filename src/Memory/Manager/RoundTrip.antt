-- ===== src/Memory/Manager/RoundTrip.antt =====
-- A block that is freed at once leaves no trace, and a new block overlaps no other.
use os1_proj.Prelude.{
  ℕ, suc, ◌+◌, ◌-◌, ◌*◌, ◌≤◌, ◌<◌, ◌≡◌, refl, true, false, [], ◌∷◌, ◌++◌, arith, word, ◌==◌, sym,
  ap, ◌∙◌, Bool-cases, inl, inr, some, Option, ◌≢◌, Option-cases,
}
use os1_proj.Memory.{Ptr, block, null}
use os1_proj.Memory.Links.{has-append, segment, has}
use os1_proj.Memory.Manager.{Owner, unused, Manager, mem_alloc, mem_free}
use os1_proj.Memory.Manager.Layout.{
  same, Tile, tile, Layout, held, remains, carve, alloc, grow, fuse, release, joins, IsCoalesced,
  Tiles, same_refl, same-eq,
}
use os1_proj.Memory.Manager.State.{limit, Represents}
use os1_proj.Memory.Manager.Alloc.{mem_alloc-alloc, missing, fit, find-Fit}
use os1_proj.Memory.Manager.Steps.{held-tile}
use os1_proj.Memory.Manager.Release.{mem_free-release}
use os1_proj.Memory.Manager.Growing.{retag, fuse_all, release-fuse_all}
use os1_proj.Memory.Manager.Coalesced.{alloc-IsCoalesced}

fuse-apart : (t : Tile) (ts : Layout) → joins t ts ≡ false → fuse t ts ≡ t ∷ ts
unfolding fuse grow
fuse-apart t [] e = elim (Bool-cases (same t.owner unused)) [
  | inl f ↦ rw f (ap (λ z. z ∷ []) (retag t (same-eq t.owner unused f)))
  | inr f ↦ rw f
]
fuse-apart t (u ∷ ts) e = elim (Bool-cases (same t.owner unused)) [
  | inl f ↦
      let used : same u.owner unused ≡ false = ground arith in
      rw (f, used) (ap (λ z. z ∷ u ∷ ts) (retag t (same-eq t.owner unused f)))
  | inr f ↦ rw f
]

as_fuse : (t : Tile) (ts : Layout) → t.owner ≡ unused → grow t.addr t.size ts ≡ fuse t ts
unfolding fuse same
as_fuse t ts f = rw f

grow-unused : (a n b k : ℕ) (ts : Layout) → grow a n (tile b k unused ∷ ts) ≡ grow a (n + k) ts
unfolding grow same
grow-unused a n b k ts = refl

-- In a coalesced layout there is nothing to fuse.
fuse_all-IsCoalesced : (us ts : Layout) → IsCoalesced (us ++ ts) → fuse_all us ts ≡ us ++ ts
unfolding fuse_all
fuse_all-IsCoalesced [] ts ic = refl
fuse_all-IsCoalesced (u ∷ us) ts ic =
    ap (fuse u) (fuse_all-IsCoalesced us ts ic.1) ∙ fuse-apart u (us ++ ts) ic.0

IsCoalesced-back : (us ts : Layout) → IsCoalesced (us ++ ts) → IsCoalesced ts
IsCoalesced-back [] ts ic = ic
IsCoalesced-back (u ∷ us) ts ic = IsCoalesced-back us ts ic.1

grow-remains :
    (k : ℕ) (t : Tile) (ts : Layout)
    → t.owner ≡ unused
    → k ≤ t.size
    → joins t ts ≡ false
    → grow t.addr k (remains k t ++ ts) ≡ t ∷ ts
unfolding remains
grow-remains k t ts f h e = elim (Bool-cases (t.size == k)) [
  | inl q ↦
      let whole : t.size ≡ k = ground arith in rw (q, ← whole) (as_fuse t ts f ∙ fuse-apart t ts e)
  | inr q ↦
      let whole : k + (t.size - k) ≡ t.size = omega arith in
      rw q (
        grow-unused t.addr k (t.addr + k * block) (t.size - k) ts
        ∙ ap (λ z. grow t.addr z ts) whole
        ∙ as_fuse t ts f
        ∙ fuse-apart t ts e)
]

-- First fit followed by a release of the block gives the layout back.
pub release-alloc :
    (o : Owner) (k lo hi : ℕ) (ts us : Layout) (a : Ptr)
    → Tiles lo hi us
    → IsCoalesced ts
    → alloc o k ts ≡ some (a, us)
    → release o a us ≡ some ts
unfolding carve
release-alloc o k lo hi ts us a c ic e = elim (find-Fit o k ts) [
  | missing none_left below ↦ absurd (cc)
  | fit us' t vs split free fits below found ↦
      let same_result : ◌≡◌ {A = Option (Ptr × Layout)} (some (t.addr, us' ++ carve o k t vs))
          (some (a, us)) =
        sym found ∙ e in
      let addr : t.addr ≡ a = cc in
      let rest : us' ++ carve o k t vs ≡ us = cc in
      let ic' = rw split at ic in
      rw (← addr, ← rest)
        (release-fuse_all o lo hi us' t.addr k (remains k t ++ vs) (rw (← rest) at c)
          ∙ ap (λ z. some (fuse_all us' z))
              (grow-remains k t vs free fits (IsCoalesced-back us' (t ∷ vs) ic').0)
          ∙ ap some (fuse_all-IsCoalesced us' (t ∷ vs) ic' ∙ sym split))
]

alloc-has :
    (o : Owner) (k : ℕ) (ts us : Layout) (a : Ptr)
    → alloc o k ts ≡ some (a, us)
    → has a (held o us) ≡ true
unfolding carve has
alloc-has o k ts us a e = elim (find-Fit o k ts) [
  | missing none_left below ↦ absurd (cc)
  | fit us' t vs split free fits below found ↦
      let addr : t.addr ≡ a = cc in
      let rest : us' ++ carve o k t vs ≡ us = cc in
      rw (← addr, ← rest, held-tile o o t.addr k us' (remains k t ++ vs), same_refl o)
        (ground
          (arith, has-append t.addr (held o us') (segment t.addr k ∷ held o (remains k t ++ vs))))
]

some_eq : (ws ts : Layout) → ◌≡◌ {A = Option Layout} (some ws) (some ts) → ws ≡ ts
some_eq ws ts e = cc

-- For a manager that stands for a coalesced layout, a block that memAlloc_ has given out to the user
-- or the system, for fewer than 2 ^ 64 - 1 blocks, can be given back at once: memFree_ returns 0, and
-- the manager stands for the layout that it stood for before.
pub mem_free-mem_alloc :
    (m : Manager) (o : Owner) (n : ℕ) (ts : Layout)
    → same o unused ≡ false
    → suc n < word
    → Represents m ts
    → IsCoalesced ts
    → (mem_alloc m o n).1 ≢ null
    → Represents (mem_free (mem_alloc m o n).0 o (mem_alloc m o n).1).0 ts
      × ((mem_free (mem_alloc m o n).0 o (mem_alloc m o n).1).1 ≡ 0)
mem_free-mem_alloc m o n ts d small r ic given = elim (Option-cases (alloc o (suc n) ts)) [
  | inl e ↦ absurd (given (rw e at (mem_alloc-alloc m o n small ts r)).0)
  | inr ((a, us), e) ↦
      let out = rw e at (mem_alloc-alloc m o n small ts r) in
      let m' = (mem_alloc m o n).0 in
      let (ws, done) =
        mem_free-release m' o a us out.1 (alloc-IsCoalesced o (suc n) ts a us d ic e)
          (alloc-has o (suc n) ts us a e) in
      let back = release-alloc o (suc n) m'.start (limit m') ts us a out.1.tiles ic e in
      let same_layout : ws ≡ ts = some_eq ws ts (sym done.released ∙ back) in
      rw out.0 (rw same_layout at done.represents, done.status)
]
