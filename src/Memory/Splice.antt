-- ===== src/Memory/Splice.antt =====
-- The two halves of a list around a node that is taken out, put in, or replaced.
use os1_proj.Prelude.{ℕ, ◌≤◌, ◌<◌, ◌≡◌, ◌≢◌, refl, true, false, List, [], ◌∷◌, arith, suc}
use os1_proj.Memory.{Ptr, null, Heap}
use os1_proj.Memory.Links.{Segment, first, last, has, Links, Ordered, last_bounds, first_bounds}
use os1_proj.Memory.Cells.{Spliced, IsPlace}
use os1_proj.Memory.Edit.{Links-relast, Links-refirst}

-- The last address of a list is one of its addresses, and so is the first.
last-has : (q : ℕ) (xs : List Segment) → xs ≢ [] → has (last q xs) xs ≡ true
unfolding has last
last-has q [] ne = absurd (ne refl)
last-has q (s ∷ []) ne = ground arith
last-has q (s ∷ t ∷ xs) ne = ground (arith, last-has s.addr (t ∷ xs))

first-has : (r : ℕ) (xs : List Segment) → xs ≢ [] → has (first xs r) xs ≡ true
unfolding has first
first-has r [] ne = absurd (ne refl)
first-has r (s ∷ xs) ne = ground arith

-- A node at `a` belongs between the lists `xs` and `ys`.
pub record IsGap (lo hi a : ℕ) (xs ys : List Segment) : Type 0 where
  pub pos : 0 < lo
  pub at_least : lo ≤ a
  pub below : Ordered lo a xs
  pub above : Ordered (suc a) hi ys

module _ (lo hi a : ℕ) (xs ys : List Segment) (gap : IsGap lo hi a xs ys) where
  pub Gap-IsPlace : IsPlace a (last null xs) (first ys null)
  Gap-IsPlace = ground (
    arith,
    gap.pos,
    gap.at_least,
    last_bounds null lo a xs gap.below,
    first_bounds null (suc a) hi ys gap.above,
  )

  pub last-ne-first : last null xs ≢ null → last null xs ≢ first ys null
  last-ne-first = ground (
    arith,
    gap.pos,
    last_bounds null lo a xs gap.below,
    first_bounds null (suc a) hi ys gap.above,
  )

  module _ {h g : Heap} {nf nl p n k : ℕ}
      (sp : Spliced h g a (last null xs) (first ys null) nf nl p n k) where
    pub Spliced-before : (r : ℕ) → Links h null xs r → Links g null xs nf
    Spliced-before r =
        Links-relast h g null r nf lo a xs gap.below
          (λ x b c. ground (arith, sp.prevs x, first_bounds null (suc a) hi ys gap.above))
          (λ x b c. ground (arith, sp.nexts x, gap.pos, last_bounds null lo a xs gap.below))
          (λ x b c. ground (arith, sp.sizes x))

    pub Spliced-after : (q : ℕ) → Links h q ys null → Links g nl ys null
    Spliced-after q =
        Links-refirst h g q nl null (suc a) hi ys gap.above
          (λ x b c. ground (arith, sp.prevs x, first_bounds null (suc a) hi ys gap.above))
          (λ x b c. ground (arith, sp.nexts x, last_bounds null lo a xs gap.below))
          (λ x b c. ground (arith, sp.sizes x))

    pub Spliced-elsewhere : (x : Ptr) → x ≢ a → has x xs ≡ false → has x ys ≡ false → g x ≡ h x
    Spliced-elsewhere x ne out out' = ground (
      arith,
      sp.prevs x,
      sp.nexts x,
      sp.sizes x,
      last_bounds null lo a xs gap.below,
      first_bounds null (suc a) hi ys gap.above,
      last-has null xs,
      first-has null ys,
    )
