-- ===== src/Memory/Lists.antt =====
-- MSH::remove, MSH::reduce, MSH::insertAfter and MSH::insertAsHead on lists of segments.
use os1_proj.Prelude.{
  ℕ, ◌+◌, ◌-◌, ◌*◌, ◌<◌, ◌≡◌, ◌≢◌, refl, true, false, List, [], ◌∷◌, ◌++◌, arith, ◌==◌,
  if◌then◌else◌, suc, word, ◌∙◌,
}
use os1_proj.Memory.{Ptr, null, block, Heap, remove, reduce, relocate}
use os1_proj.Memory.Links.{
  Segment, segment, stop, first, last, has, Links, Ordered, Ordered-le, last_bounds, first_bounds,
  first-append, Links-append, Links-split, Links-frame, has_bounds, Ordered-extend, Ordered-weaken,
}
use os1_proj.Memory.Cells.{
  Spliced, IsPlace, remove-Spliced, remove-head, relocate-Spliced, reduce-relocate, relocate-head,
  cut_off,
}
use os1_proj.Memory.Splice.{IsGap, Gap-IsPlace, Spliced-before, Spliced-after, Spliced-elsewhere}

-- `head` leads to the doubly linked list of the segments `xs`.
pub record Listed (h : Heap) (head : Ptr) (xs : List Segment) : Type 0 where
  pub links : Links h null xs null
  pub at_head : head ≡ first xs null

-- A header outside the lists and away from `a` is as it was.
abbrev pub SameOutside : (a : Ptr) (xs ys : List Segment) (h g : Heap) → Type 0
SameOutside a xs ys h g = (x : Ptr) → x ≢ a → has x xs ≡ false → has x ys ≡ false → g x ≡ h x

pub first_indep : (xs : List Segment) (r r' : Ptr) → xs ≢ [] → first xs r ≡ first xs r'
unfolding first
first_indep [] r r' ne = absurd (ne refl)
first_indep (s ∷ xs) r r' ne = refl

first-nil : (r : Ptr) → first [] r ≡ r
unfolding first
first-nil r = refl

module _ (h : Heap) (head lo hi : ℕ) (s : Segment) (xs ys : List Segment)
    (gap : IsGap lo hi s.addr xs ys) (li : Listed h head (xs ++ s ∷ ys)) where
  -- The two halves, and the links of the node between them.
  halves : Links h null xs s.addr × Links h (last null xs) (s ∷ ys) null
  unfolding first
  halves = Links-split h null null xs (s ∷ ys) li.links

  -- The node is the head exactly when nothing stands before it.
  head_test : (head == s.addr) ≡ (last null xs == null)
  unfolding first
  head_test = ground (
    arith,
    li.at_head,
    first-append xs (s ∷ ys) null,
    first_bounds s.addr lo s.addr xs gap.below,
    last_bounds null lo s.addr xs gap.below,
    gap.pos,
    gap.at_least,
  )

  prev_link : (h s.addr).prev ≡ last null xs
  prev_link = halves.1.0

  next_link : (h s.addr).next ≡ first ys null
  next_link = halves.1.1

  -- The head of a list whose first half is kept.
  head_after :
      (zs : List Segment)
      → (if last null xs == null then first zs null else head) ≡ first (xs ++ zs) null
  head_after zs = ground (
    arith,
    li.at_head,
    first-append xs (s ∷ ys) null,
    first-append xs zs null,
    first_indep xs s.addr (first zs null),
    first_indep xs (first (s ∷ ys) null) (first zs null),
    first-nil (first zs null),
    last_bounds null lo s.addr xs gap.below,
    gap.pos,
  )

  place : IsPlace s.addr (last null xs) (first ys null)
  place = Gap-IsPlace lo hi s.addr xs ys gap

  removed :
      Spliced h
        (remove h head s.addr).0
        s.addr
        (last null xs)
        (first ys null)
        (first ys null)
        (last null xs)
        null
        null
        (h s.addr).size
  removed = remove-Spliced h head s.addr _ _ place prev_link next_link head_test

  -- `remove` leaves the other segments listed, the removed header's size, and all other headers.
  pub remove-Listed : Listed (remove h head s.addr).0 (remove h head s.addr).1 (xs ++ ys)
  remove-Listed = record {
    links =
        Links-append _ null null xs ys
          (Spliced-before lo hi s.addr xs ys gap removed s.addr halves.0)
          (Spliced-after lo hi s.addr xs ys gap removed s.addr halves.1.3);
    at_head = remove-head h head s.addr _ _ place prev_link next_link head_test ∙ head_after ys;
  }

  pub remove-size : ((remove h head s.addr).0 s.addr).size ≡ s.size
  remove-size = ground (arith, removed.sizes s.addr, halves.1.2)

  pub remove-elsewhere : SameOutside s.addr xs ys h (remove h head s.addr).0
  remove-elsewhere = Spliced-elsewhere lo hi s.addr xs ys gap removed

module _ (h : Heap) (head lo hi : ℕ) (s : Segment) (k b : ℕ) (xs ys : List Segment)
    (gap : IsGap lo hi s.addr xs ys) (rest : Ordered (stop s) hi ys)
    (li : Listed h head (xs ++ s ∷ ys)) (pos : 0 < k) (fits : k < s.size)
    (be : b ≡ s.addr + k * block) (bound : hi < word) where
  -- The node that takes the old one's place.
  new-IsGap : IsGap lo hi b xs ys
  new-IsGap = record {
    pos = gap.pos;
    at_least = omega (arith, gap.at_least);
    below = Ordered-extend lo s.addr b xs (omega arith) gap.below;
    above = Ordered-weaken (stop s) (suc b) hi ys (omega arith) rest;
  }

  cut_off-before : Links (cut_off h s.addr k) null xs s.addr
  unfolding cut_off
  cut_off-before =
      Links-frame h (cut_off h s.addr k) null s.addr xs
        (λ x i. ground (arith, has_bounds x lo s.addr xs gap.below i))
        (halves h head lo hi s xs ys gap li).0

  cut_off-after : Links (cut_off h s.addr k) s.addr ys null
  unfolding cut_off
  cut_off-after =
      Links-frame h (cut_off h s.addr k) s.addr null ys
        (λ x i. ground (arith, has_bounds x (suc s.addr) hi ys gap.above i))
        (halves h head lo hi s xs ys gap li).1.3

  relocated :
      Spliced
        (cut_off h s.addr k)
        (relocate h head s.addr b k).0
        b
        (last null xs)
        (first ys null)
        b
        b
        (last null xs)
        (first ys null)
        ((h s.addr).size - k)
  relocated =
      relocate-Spliced h head s.addr b _ _ k (Gap-IsPlace lo hi b xs ys new-IsGap)
        (place h head lo hi s xs ys gap li) (omega arith) (prev_link h head lo hi s xs ys gap li)
        (next_link h head lo hi s xs ys gap li) (head_test h head lo hi s xs ys gap li)

  -- `reduce` leaves the rest of the segment in the list, in the place of the whole.
  relocate-Listed :
      Listed
        (relocate h head s.addr b k).0
        (relocate h head s.addr b k).1
        (xs ++ segment b (s.size - k) ∷ ys)
  unfolding first
  relocate-Listed = record {
    links =
        Links-append _ null null xs (segment b (s.size - k) ∷ ys)
          (Spliced-before lo hi b xs ys new-IsGap relocated s.addr cut_off-before)
          (
            ground (arith, relocated.prevs b),
            ground (arith, relocated.nexts b),
            ground (arith, relocated.sizes b, (halves h head lo hi s xs ys gap li).1.2),
            Spliced-after lo hi b xs ys new-IsGap relocated s.addr cut_off-after,
          );
    at_head =
        relocate-head h head s.addr b _ _ k (Gap-IsPlace lo hi b xs ys new-IsGap)
          (place h head lo hi s xs ys gap li) (omega arith) (prev_link h head lo hi s xs ys gap li)
          (next_link h head lo hi s xs ys gap li) (head_test h head lo hi s xs ys gap li)
        ∙ head_after h head lo hi s xs ys gap li (segment b (s.size - k) ∷ ys);
  }

  relocate-size : ((relocate h head s.addr b k).0 s.addr).size ≡ k
  unfolding cut_off
  relocate-size = ground (arith, relocated.sizes s.addr)

  relocate-elsewhere :
      (x : Ptr)
      → x ≢ s.addr
      → x ≢ b
      → has x xs ≡ false
      → has x ys ≡ false
      → (relocate h head s.addr b k).0 x ≡ h x
  unfolding cut_off
  relocate-elsewhere x ne ne' out out' =
      Spliced-elsewhere lo hi b xs ys new-IsGap relocated x ne' out out' ∙ ground arith

  reduce-eq :
      reduce h head s.addr k
      ≡ (true, (relocate h head s.addr b k).0, (relocate h head s.addr b k).1)
  reduce-eq =
      reduce-relocate h head s.addr b _ _ k (Gap-IsPlace lo hi b xs ys new-IsGap)
        (place h head lo hi s xs ys gap li) (omega arith) (prev_link h head lo hi s xs ys gap li)
        (next_link h head lo hi s xs ys gap li) (head_test h head lo hi s xs ys gap li)
        (omega (arith, Ordered-le (stop s) hi ys rest)) pos
        (omega (arith, fits, (halves h head lo hi s xs ys gap li).1.2))

  -- MSH::reduce succeeds, and keeps `k` blocks at the old address.
  pub reduce-Listed :
      ((reduce h head s.addr k).0 ≡ true)
      × Listed
          (reduce h head s.addr k).1
          (reduce h head s.addr k).2
          (xs ++ segment b (s.size - k) ∷ ys)
      × (((reduce h head s.addr k).1 s.addr).size ≡ k)
  reduce-Listed = rw reduce-eq (refl, relocate-Listed, relocate-size)

  pub reduce-elsewhere :
      (x : Ptr)
      → x ≢ s.addr
      → x ≢ b
      → has x xs ≡ false
      → has x ys ≡ false
      → (reduce h head s.addr k).1 x ≡ h x
  reduce-elsewhere = rw reduce-eq relocate-elsewhere
