-- ===== src/Memory/Insert.antt =====
-- MSH::insertAfter and MSH::insertAsHead on lists of segments.
use os1_proj.Prelude.{
  ℕ, ◌≡◌, ◌≢◌, refl, List, [], ◌∷◌, ◌++◌, arith, ◌==◌, if◌then◌else◌, sym, not, inl, inr, ◌∙◌,
  Bool-cases,
}
use os1_proj.Memory.{Ptr, null, Heap, insert_after, insert_as_head}
use os1_proj.Memory.Links.{
  Segment, segment, first, last, Links, last_bounds, first-append, Links-append, Links-split,
}
use os1_proj.Memory.Cells.{Spliced, IsPlace, insert_as_head-Spliced, insert_after-Spliced}
use os1_proj.Memory.Lists.{Listed, SameOutside, first_indep}
use os1_proj.Memory.Splice.{
  IsGap, Gap-IsPlace, last-ne-first, Spliced-before, Spliced-after, Spliced-elsewhere,
}

-- `if (where) where->insertAfter(other); else MSH::insertAsHead(&head, other);`
unfoldable pub insert_at : Heap → (head place other : Ptr) → Heap × Ptr
insert_at h head place other =
    if not (place == null) then (insert_after h place other, head) else insert_as_head h head other

-- The link out of the last node of a list.
pub last-next :
    (h : Heap) (q r : Ptr) (xs : List Segment) → xs ≢ [] → Links h q xs r → (h (last q xs)).next ≡ r
unfolding last first
last-next h q r [] ne l = absurd (ne refl)
last-next h q r (s ∷ []) ne l = l.1
last-next h q r (s ∷ t ∷ xs) ne l = last-next h s.addr r (t ∷ xs) (λ e. cc) l.3

insert_as_head-head : (h : Heap) (head a : Ptr) → a ≢ null → (insert_as_head h head a).1 ≡ a
unfolding insert_as_head
insert_as_head-head h head a ne = ground arith

module _ (h : Heap) (head lo hi a n : ℕ) (xs ys : List Segment) (gap : IsGap lo hi a xs ys)
    (li : Listed h head (xs ++ ys)) (size : (h a).size ≡ n) where
  halves : Links h null xs (first ys null) × Links h (last null xs) ys null
  halves = Links-split h null null xs ys li.links

  place : IsPlace a (last null xs) (first ys null)
  place = Gap-IsPlace lo hi a xs ys gap

  -- Before an empty half the node becomes the head.
  empty_half : last null xs ≡ null → xs ≡ []
  empty_half e = ground (arith, last_bounds null lo a xs gap.below, gap.pos)

  full_half : last null xs ≢ null → xs ≢ []
  unfolding last
  full_half ne e = ne (rw e)

  inserted :
      Spliced h
        (insert_at h head (last null xs) a).0
        a
        (last null xs)
        (first ys null)
        a
        a
        (last null xs)
        (first ys null)
        (h a).size
  unfolding insert_at
  inserted = elim (Bool-cases (last null xs == null)) [
    | inl e ↦ rw e (
        insert_as_head-Spliced h head a _ _ place (ground arith)
          (li.at_head ∙ (rw (empty_half (ground arith)))))
    | inr e ↦ rw e (
        insert_after-Spliced h head a _ _ place (ground arith)
          (last-ne-first lo hi a xs ys gap (ground arith))
          (last-next h null (first ys null) xs (full_half (ground arith)) halves.0))
  ]

  inserted-head : (insert_at h head (last null xs) a).1 ≡ first (xs ++ segment a n ∷ ys) null
  unfolding insert_at first
  inserted-head = elim (Bool-cases (last null xs == null)) [
    | inl e ↦ rw e (rw (empty_half (ground arith)) (insert_as_head-head h head a place.ne_null))
    | inr e ↦ rw e (
        li.at_head
        ∙ first-append xs ys null
        ∙ first_indep xs _ a (full_half (ground arith))
        ∙ sym (first-append xs (segment a n ∷ ys) null))
  ]

  -- The node is listed between the two halves.
  pub insert_at-Listed :
      Listed
        (insert_at h head (last null xs) a).0
        (insert_at h head (last null xs) a).1
        (xs ++ segment a n ∷ ys)
  unfolding first
  insert_at-Listed = record {
    links =
        Links-append _ null null xs (segment a n ∷ ys)
          (Spliced-before lo hi a xs ys gap inserted _ halves.0)
          (
            ground (arith, inserted.prevs a),
            ground (arith, inserted.nexts a),
            ground (arith, inserted.sizes a),
            Spliced-after lo hi a xs ys gap inserted _ halves.1,
          );
    at_head = inserted-head;
  }

  pub insert_at-elsewhere : SameOutside a xs ys h (insert_at h head (last null xs) a).0
  insert_at-elsewhere = Spliced-elsewhere lo hi a xs ys gap inserted
