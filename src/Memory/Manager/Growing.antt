-- ===== src/Memory/Manager/Growing.antt =====
-- The loop of MSH::merge grows a tile, and freeing fuses a layout.
use os1_proj.Prelude.{
  ℕ, zero, suc, ◌+◌, ◌*◌, ◌<◌, ◌≡◌, refl, true, false, [], ◌∷◌, ◌++◌, arith, length, sym, ap, ◌∙◌,
  Bool-cases, inl, inr, subst, some,
}
use os1_proj.Memory.{Ptr, block, null, merge_step, merge_loop}
use os1_proj.Memory.Links.{first, first_bounds}
use os1_proj.Memory.Manager.{Owner, unused, Manager}
use os1_proj.Memory.Manager.Layout.{
  same, Tile, tile, edge, Layout, Tiles, held, grow, fuse, release, IsCoalesced, held-Ordered,
  same-eq, same_refl, Tiles-split, Tiles-le,
}
use os1_proj.Memory.Manager.State.{limit, Represents}
use os1_proj.Memory.Manager.Taking.{parts}
use os1_proj.Memory.Manager.Merging.{with_heap, merge_step-Represents, goes_on, stops}

held-skip :
    (o : Owner) (t : Tile) (ts : Layout) → same t.owner o ≡ false → held o (t ∷ ts) ≡ held o ts
unfolding held
held-skip o t ts e = rw e

first-held : first (held unused []) null ≡ null
unfolding first held
first-held = refl

-- A tile that follows at `b` is the tile written out.
as_tile : (u : Tile) (b : Ptr) → u.addr ≡ b → same u.owner unused ≡ true → u ≡ tile b u.size unused
as_tile u b e f = λ i. tile (e i) u.size (same-eq u.owner unused f i)

pub merge_loop-grow :
    (f c : ℕ) (m : Manager) (us : Layout) (a n : ℕ) (vs : Layout)
    → length vs < f
    → Represents m (us ++ tile a n unused ∷ vs)
    → Represents (with_heap m (merge_loop f m.heap a c).0) (us ++ grow a n vs)
unfolding merge_loop grow
merge_loop-grow zero c m us a n vs h r = absurd (omega arith)
merge_loop-grow (suc f) c m us a n [] h r = rw (stops m us a n [] r (inl first-held)) r
merge_loop-grow (suc f) c m us a n (u ∷ vs) h r = elim (Bool-cases (same u.owner unused)) [
  | inl e ↦
      let p = parts m unused us (u ∷ vs) a n r in
      let t = as_tile u (a + n * block) p.2.0 e in
      let r' = subst (λ z. Represents m (us ++ tile a n unused ∷ z ∷ vs)) t r in
      rw (e, goes_on m us a n u.size vs r')
        (merge_loop-grow f (c + 1) (with_heap m (merge_step m.heap a)) us a (n + u.size) vs
          (omega arith) (merge_step-Represents m us vs a n u.size r'))
  | inr e ↦
      rw
        (
          e,
          stops m us a n (u ∷ vs) r (
              rw (held-skip unused u vs e) (
                let p = parts m unused us (u ∷ vs) a n r in
                ground (
                  arith,
                  p.2,
                  first_bounds null (edge u) (limit m) (held unused vs)
                      (held-Ordered unused (edge u) (limit m) vs p.2.2),
                ))),
        )
        r
]

-- The tiles of `us` in front of a layout, each fused with what follows it.
unfoldable pub fuse_all : Layout → Layout → Layout
fuse_all [] rest = rest
fuse_all (t ∷ us) rest = fuse t (fuse_all us rest)

-- Freeing retags the tile and fuses what stands before it.
pub release-fuse_all :
    (o : Owner) (lo hi : ℕ) (us : Layout) (a n : ℕ) (vs : Layout)
    → Tiles lo hi (us ++ tile a n o ∷ vs)
    → release o a (us ++ tile a n o ∷ vs) ≡ some (fuse_all us (grow a n vs))
unfolding release fuse_all
release-fuse_all o lo hi [] a n vs c = ground (arith, same_refl o)
release-fuse_all o lo hi (t ∷ us) a n vs c = ground (
  arith,
  release-fuse_all o (edge t) hi us a n vs c.2,
  Tiles-le (edge t) a us (Tiles-split (edge t) hi us (tile a n o) vs c.2).0,
)

-- The last unused tile of a coalesced layout fuses with what follows, and no other does.
pub data Fused (us rest : Layout) : Type 0 where
  plain : held unused us ≡ [] → fuse_all us rest ≡ us ++ rest → Fused us rest
  joined :
      (ts : Layout) (c j : ℕ) (vs : Layout)
      → us ≡ ts ++ tile c j unused ∷ vs
      → held unused vs ≡ []
      → fuse_all us rest ≡ ts ++ grow c j (vs ++ rest)
      → Fused us rest

Fused-used :
    (t : Tile) (us rest : Layout)
    → same t.owner unused ≡ false
    → Fused us rest
    → Fused (t ∷ us) rest
unfolding fuse fuse_all
Fused-used t us rest e (plain h k) = plain (held-skip unused t us e ∙ h) (rw (e, k))
Fused-used t us rest e (joined ts c j vs split h k) =
    joined (t ∷ ts) c j vs (rw split) h (rw (e, k))

grow-used :
    (a n : ℕ) (u : Tile) (us : Layout)
    → same u.owner unused ≡ false
    → grow a n (u ∷ us) ≡ tile a n unused ∷ u ∷ us
unfolding grow
grow-used a n u us e = rw e

fuse_all-unused :
    (t : Tile) (us rest : Layout)
    → t.owner ≡ unused
    → fuse_all (t ∷ us) rest ≡ grow t.addr t.size (fuse_all us rest)
unfolding fuse fuse_all same
fuse_all-unused t us rest f = rw f

pub retag : (t : Tile) → t.owner ≡ unused → tile t.addr t.size unused ≡ t
retag t f = sym (λ i. tile t.addr t.size (f i))

-- An unused tile in front of a used one.
Fused-unused :
    (t u : Tile) (us rest : Layout)
    → t.owner ≡ unused
    → same u.owner unused ≡ false
    → Fused (u ∷ us) rest
    → Fused (t ∷ u ∷ us) rest
unfolding same
Fused-unused t u us rest f e (plain h k) =
    joined [] t.addr t.size (u ∷ us) (λ i. tile t.addr t.size (f i) ∷ u ∷ us) h
      (fuse_all-unused t (u ∷ us) rest f ∙ ap (grow t.addr t.size) k)
Fused-unused t u us rest f e (joined [] c j vs split h k) = absurd (cc)
Fused-unused t u us rest f e (joined (w ∷ ts) c j vs split h k) =
    let same_tile : u ≡ w = cc in
    joined (t ∷ w ∷ ts) c j vs (rw split) h (
      fuse_all-unused t (u ∷ us) rest f
      ∙ ap (grow t.addr t.size) k
      ∙ grow-used t.addr t.size w (ts ++ grow c j (vs ++ rest)) (rw (← same_tile) e)
      ∙ ap (λ z. z ∷ w ∷ ts ++ grow c j (vs ++ rest)) (retag t f))

held-nil : (o : Owner) → held o [] ≡ []
unfolding held
held-nil o = refl

fuse_all-nil : (rest : Layout) → fuse_all [] rest ≡ rest
unfolding fuse_all
fuse_all-nil rest = refl

Fused-front :
    (t : Tile) (us rest : Layout)
    → t.owner ≡ unused
    → IsCoalesced (t ∷ us)
    → Fused us rest
    → Fused (t ∷ us) rest
Fused-front t [] rest f ic fd =
    joined [] t.addr t.size [] (λ i. tile t.addr t.size (f i) ∷ []) (held-nil unused)
      (fuse_all-unused t [] rest f ∙ ap (grow t.addr t.size) (fuse_all-nil rest))
Fused-front t (u ∷ us) rest f ic fd =
    Fused-unused t u us rest f (ground (arith, same_refl unused, ic.0)) fd

pub find-Fused : (us rest : Layout) → IsCoalesced us → Fused us rest
find-Fused [] rest ic = plain (held-nil unused) (fuse_all-nil rest)
find-Fused (t ∷ us) rest ic = elim (Bool-cases (same t.owner unused)) [
  | inr e ↦ Fused-used t us rest e (find-Fused us rest ic.1)
  | inl e ↦ Fused-front t us rest (same-eq t.owner unused e) ic (find-Fused us rest ic.1)
]
