-- ===== src/Memory/Manager/Coalesced.antt =====
-- Neither first fit nor freeing leaves two unused tiles side by side.
use os1_proj.Prelude.{
  ℕ, ◌+◌, ◌≡◌, refl, true, false, [], ◌∷◌, ◌++◌, arith, ◌==◌, Bool-cases, inl, inr, ◌&&◌, some,
  none, Option, leb,
}
use os1_proj.Memory.{Ptr}
use os1_proj.Memory.Manager.{Owner, unused}
use os1_proj.Memory.Manager.Layout.{
  same, Tile, Layout, grow, fuse, release, alloc, carve, remains, IsCoalesced, joins,
}

grow-IsCoalesced : (a n : ℕ) (ts : Layout) → IsCoalesced ts → IsCoalesced (grow a n ts)
unfolding grow same
grow-IsCoalesced a n [] ic = (refl, tt)
grow-IsCoalesced a n (u ∷ ts) ic = elim (Bool-cases (same u.owner unused)) [
  | inl e ↦ rw e (grow-IsCoalesced a (n + u.size) ts ic.1)
  | inr e ↦ rw e (ground arith, ic)
]

fuse-IsCoalesced : (t : Tile) (ts : Layout) → IsCoalesced ts → IsCoalesced (fuse t ts)
unfolding fuse
fuse-IsCoalesced t [] ic = ground arith
fuse-IsCoalesced t (u ∷ ts) ic = elim (Bool-cases (same t.owner unused)) [
  | inl e ↦ rw e (grow-IsCoalesced t.addr t.size (u ∷ ts) ic)
  | inr e ↦ rw e (ground arith, ic)
]

-- What a layout has that is there.
abbrev OfSome {ℓ} : {A : Type ℓ} → (A → Type 0) → Option A → Type 0
OfSome P none = Unit {0}
OfSome P (some x) = P x

release-OfSome :
    (o : Owner) (a : Ptr) (ts : Layout) → IsCoalesced ts → OfSome IsCoalesced (release o a ts)
unfolding release
release-OfSome o a [] ic = tt
release-OfSome o a (t ∷ ts) ic = elim (Bool-cases (t.addr == a && same t.owner o)) [
  | inl e ↦ rw e (grow-IsCoalesced t.addr t.size ts ic.1)
  | inr e ↦ rw e (after (release o a ts) (release-OfSome o a ts ic.1))
]
  where
    after :
        (r : Option Layout)
        → OfSome IsCoalesced r
        → OfSome IsCoalesced (elim r [ none ↦ none | some us ↦ some (fuse t us) ])
    after none h = tt
    after (some us) h = fuse-IsCoalesced t us h

remains-IsCoalesced :
    (k : ℕ) (t : Tile) (ts : Layout)
    → same t.owner unused ≡ true
    → IsCoalesced (t ∷ ts)
    → IsCoalesced (remains k t ++ ts)
unfolding remains same
remains-IsCoalesced k t [] e ic = ground arith
remains-IsCoalesced k t (u ∷ ts) e ic = elim (Bool-cases (t.size == k)) [
  | inl f ↦ rw f ic.1
  | inr f ↦ rw f (ground arith, ic.1)
]

-- A tile in front of a layout in which a tile has been carved.
abbrev Carved : Layout → Ptr × Layout → Type 0
Carved ts (a, us) = IsCoalesced us × ((t : Tile) → joins t ts ≡ false → joins t us ≡ false)

alloc-OfSome :
    (o : Owner) (k : ℕ) (ts : Layout)
    → same o unused ≡ false
    → IsCoalesced ts
    → OfSome (Carved ts) (alloc o k ts)
unfolding alloc carve remains
alloc-OfSome o k [] d ic = tt
alloc-OfSome o k (t ∷ ts) d ic = elim (Bool-cases (same t.owner unused && leb k t.size)) [
  | inl e ↦ rw e ((ground arith, remains-IsCoalesced k t ts (ground arith) ic), λ u h. ground arith)
  | inr e ↦ rw e (after (alloc o k ts) (alloc-OfSome o k ts d ic.1))
]
  where
    after :
        (r : Option (Ptr × Layout))
        → OfSome (Carved ts) r
        → OfSome (Carved (t ∷ ts)) (elim r [ none ↦ none | some (a, us) ↦ some (a, t ∷ us) ])
    after none h = tt
    after (some (a, us)) h = ((h.1 t ic.0, h.0), λ u f. f)

pub release-IsCoalesced :
    (o : Owner) (a : Ptr) (ts us : Layout)
    → IsCoalesced ts
    → release o a ts ≡ some us
    → IsCoalesced us
release-IsCoalesced o a ts us ic e = rw e at (release-OfSome o a ts ic)

pub alloc-IsCoalesced :
    (o : Owner) (k : ℕ) (ts : Layout) (a : Ptr) (us : Layout)
    → same o unused ≡ false
    → IsCoalesced ts
    → alloc o k ts ≡ some (a, us)
    → IsCoalesced us
alloc-IsCoalesced o k ts a us d ic e = let c = rw e at (alloc-OfSome o k ts d ic) in c.0
