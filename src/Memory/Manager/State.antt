-- ===== src/Memory/Manager/State.antt =====
-- A manager that stands for a layout, and one from which the tile at an address has been taken out.
use os1_proj.Prelude.{
  ℕ, suc, ◌+◌, ◌*◌, ◌≤◌, ◌<◌, ◌≡◌, refl, true, false, List, [], ◌∷◌, ◌++◌, arith, if◌then◌else◌,
  length, word, inl, inr, Bool-cases, ◌≢◌,
}
use os1_proj.Memory.{Ptr, block, null, find_by_pointer, Heap}
use os1_proj.Memory.Links.{
  Segment, stop, has, last, Ordered, Ordered-weaken, Ordered-extend, has_bounds, has-append,
  Links-frame,
}
use os1_proj.Memory.Lists.{Listed}
use os1_proj.Memory.Splice.{IsGap}
use os1_proj.Memory.Search.{find_by_pointer-last, Ordered-AllUpTo}
use os1_proj.Memory.Manager.{Owner, unused, user, system, Manager, fuel, head_of, set_head}
use os1_proj.Memory.Manager.Layout.{
  same, Layout, Tiles, held, held-Ordered, held_apart, same-eq, Tiles-le,
}

abbrev pub limit : Manager → ℕ
limit m = m.start + m.total * block

-- The three lists are those of the layout, which covers the heap.
pub record Represents (m : Manager) (ts : Layout) : Type 0 where
  pub lists : (o : Owner) → Listed m.heap (head_of o m) (held o ts)
  pub tiles : Tiles m.start (limit m) ts
  pub pos : 0 < m.start
  pub bound : limit m < word

-- The tile of `k` blocks at `a`, between `ts` and `us`, is in none of the lists.
pub record IsLoose (m : Manager) (ts us : Layout) (a k : ℕ) : Type 0 where
  pub lists : (o : Owner) → Listed m.heap (head_of o m) (held o ts ++ held o us)
  pub below : Tiles m.start a ts
  pub above : Tiles (a + k * block) (limit m) us
  pub size : (m.heap a).size ≡ k
  pub pos : 0 < m.start
  pub size_pos : 0 < k
  pub bound : limit m < word

pub Ordered-length :
    (lo hi : ℕ) (xs : List Segment) → Ordered lo hi xs → lo + length xs * block ≤ hi
Ordered-length lo hi [] o = omega arith
Ordered-length lo hi (s ∷ xs) o = omega (arith, Ordered-length (stop s) hi xs o.2)

-- The manager with another header store, and another head of one list.
abbrev pub relisted : Manager → Owner → Heap → Ptr → Manager
relisted m o h v = record (set_head o m v) { heap = h }

pub relisted-heap : (m : Manager) (o : Owner) (h : Heap) (v : Ptr) → (relisted m o h v).heap ≡ h
relisted-heap m unused h v = refl
relisted-heap m user h v = refl
relisted-heap m system h v = refl

pub relisted-head :
    (m : Manager) (o p : Owner) (h : Heap) (v : Ptr)
    → head_of p (relisted m o h v) ≡ (if same o p then v else head_of p m)
unfolding same
relisted-head m unused unused h v = refl
relisted-head m unused user h v = refl
relisted-head m unused system h v = refl
relisted-head m user unused h v = refl
relisted-head m user user h v = refl
relisted-head m user system h v = refl
relisted-head m system unused h v = refl
relisted-head m system user h v = refl
relisted-head m system system h v = refl

pub relisted_self :
    (m : Manager) (o : Owner) (h : Heap) → relisted m o h (head_of o m) ≡ record m { heap = h }
relisted_self m unused h = refl
relisted_self m user h = refl
relisted_self m system h = refl

pub relisted_bounds :
    (m : Manager) (o : Owner) (h : Heap) (v : Ptr)
    → ((relisted m o h v).start ≡ m.start) × ((relisted m o h v).total ≡ m.total)
relisted_bounds m unused h v = (refl, refl)
relisted_bounds m user h v = (refl, refl)
relisted_bounds m system h v = (refl, refl)

pub same_comm : (o p : Owner) → same o p ≡ same p o
unfolding same
same_comm unused unused = refl
same_comm user user = refl
same_comm system system = refl
same_comm unused user = refl
same_comm unused system = refl
same_comm user unused = refl
same_comm user system = refl
same_comm system unused = refl
same_comm system user = refl

-- The lists of two owners around a loose tile have no address in common.
pub apart_loose :
    (o p : Owner) (lo hi a k : ℕ) (x : Ptr) (ts us : Layout)
    → Tiles lo a ts
    → Tiles (a + k * block) hi us
    → 0 < k
    → same o p ≡ false
    → has x (held p ts ++ held p us) ≡ true
    → (x ≢ a) × (has x (held o ts) ≡ false) × (has x (held o us) ≡ false)
apart_loose o p lo hi a k x ts us c d pos e i = ground (
  arith,
  has-append x (held p ts) (held p us),
  held_apart p o lo a x ts c,
  held_apart p o (a + k * block) hi x us d,
  has_bounds x lo a (held p ts) (held-Ordered p lo a ts c),
  has_bounds x lo a (held o ts) (held-Ordered o lo a ts c),
  has_bounds x (a + k * block) hi (held p us) (held-Ordered p (a + k * block) hi us d),
  has_bounds x (a + k * block) hi (held o us) (held-Ordered o (a + k * block) hi us d),
  same-eq o p,
  same_comm o p,
)

-- The lists after one of them has been changed, and the others have been left alone.
pub lists-relisted :
    (m : Manager) (o : Owner) (h : Heap) (v : Ptr) (xs ys : Owner → List Segment)
    → ((p : Owner) → Listed m.heap (head_of p m) (xs p))
    → Listed h v (ys o)
    → ((p : Owner) → same o p ≡ false → ys p ≡ xs p)
    → ((p : Owner) (x : Ptr) → same o p ≡ false → has x (xs p) ≡ true → h x ≡ m.heap x)
    → (p : Owner) → Listed (relisted m o h v).heap (head_of p (relisted m o h v)) (ys p)
lists-relisted m o h v xs ys li changed kept frame p = elim (Bool-cases (same o p)) [
  | inl e ↦ rw (relisted-heap m o h v, relisted-head m o p h v, e) (rw (same-eq o p e) at changed)
  | inr e ↦
      rw (relisted-heap m o h v, relisted-head m o p h v, e, kept p e)
        (record {
          links = Links-frame m.heap h null null (xs p) (λ x i. frame p x e i) (li p).links;
          at_head = (li p).at_head;
        })
]

module _ (m : Manager) (o : Owner) (ts us : Layout) (a k : ℕ) (lo : IsLoose m ts us a k) where
  pub loose-IsGap : IsGap m.start (limit m) a (held o ts) (held o us)
  loose-IsGap = record {
    pos = lo.pos;
    at_least = Tiles-le m.start a ts lo.below;
    below = held-Ordered o m.start a ts lo.below;
    above =
        Ordered-weaken (a + k * block) (suc a) (limit m) (held o us) (omega (arith, lo.size_pos))
          (held-Ordered o (a + k * block) (limit m) us lo.above);
  }

  pub enlist_place : find_by_pointer (fuel m) m.heap (head_of o m) a ≡ last null (held o ts)
  enlist_place = rw (lo.lists o).at_head (
      find_by_pointer-last (fuel m) m.heap a (limit m) (held o ts) (held o us)
        (Ordered-AllUpTo m.start a (held o ts) lo.pos
          (Ordered-extend m.start a (suc a) (held o ts) (omega arith) loose-IsGap.below))
        loose-IsGap.above (lo.lists o).links
        (omega (
          arith,
          Ordered-length m.start a (held o ts) loose-IsGap.below,
          Tiles-le (a + k * block) (limit m) us lo.above,
        )))
