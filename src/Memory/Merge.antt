-- ===== src/Memory/Merge.antt =====
-- One round of MSH::merge on lists of segments.
use os1_proj.Prelude.{ℕ, ◌+◌, ◌*◌, ◌<◌, ◌≡◌, ◌≢◌, List, ◌∷◌, ◌++◌, arith, ◌+w◌, sym, ◌∙◌, word}
use os1_proj.Memory.{null, block, Heap, merge_step, set_size, set_next, set_prev, set_prev_if}
use os1_proj.Memory.Links.{
  Segment, segment, first, last, Links, Ordered, Ordered-le, first-append, Links-append,
  Links-split,
}
use os1_proj.Memory.Cells.{Spliced, IsPlace}
use os1_proj.Memory.Lists.{Listed, SameOutside}
use os1_proj.Memory.Insert.{last-next}
use os1_proj.Memory.Splice.{IsGap, Gap-IsPlace, Spliced-before, Spliced-after, Spliced-elsewhere}

module _ (h : Heap) (a b l f : ℕ) where
  merge_step-Spliced :
      IsPlace a l f
      → a ≢ b
      → b ≢ null
      → (h a).next ≡ b
      → (h a).prev ≡ l
      → (h b).next ≡ f
      → (l ≢ null → (h l).next ≡ a)
      → Spliced h (merge_step h a) a l f a a l f ((h a).size +w (h b).size)
  unfolding merge_step set_size set_next set_prev set_prev_if
  merge_step-Spliced d ab bn ne pe be le = record {
    prevs = λ x. ground arith;
    nexts = λ x. ground arith;
    sizes = λ x. ground arith;
  }

module _ (h : Heap) (head lo hi a n k : ℕ) (xs ys : List Segment) (gap : IsGap lo hi a xs ys)
    (n_pos : 0 < n) (rest : Ordered (a + (n + k) * block) hi ys) (bound : hi < word)
    (li : Listed h head (xs ++ segment a n ∷ segment (a + n * block) k ∷ ys)) where
  halves :
      Links h null xs a × Links h (last null xs) (segment a n ∷ segment (a + n * block) k ∷ ys) null
  unfolding first
  halves = Links-split h null null xs (segment a n ∷ segment (a + n * block) k ∷ ys) li.links

  before-next : last null xs ≢ null → (h (last null xs)).next ≡ a
  unfolding last
  before-next ne = last-next h null a xs (λ e. ne (rw e)) halves.0

  merged :
      Spliced h
        (merge_step h a)
        a
        (last null xs)
        (first ys null)
        a
        a
        (last null xs)
        (first ys null)
        ((h a).size +w (h (a + n * block)).size)
  unfolding first
  merged =
      merge_step-Spliced h a (a + n * block) _ _ (Gap-IsPlace lo hi a xs ys gap) (omega arith)
        (omega arith) halves.1.1 halves.1.0 halves.1.3.1 before-next

  -- The segment takes in its neighbour, and the others stay as they are.
  pub merge_step-Listed : Listed (merge_step h a) head (xs ++ segment a (n + k) ∷ ys)
  unfolding first
  merge_step-Listed = record {
    links =
        Links-append _ null null xs (segment a (n + k) ∷ ys)
          (Spliced-before lo hi a xs ys gap merged _ halves.0)
          (
            ground (arith, merged.prevs a),
            ground (arith, merged.nexts a),
            ground (
              arith,
              merged.sizes a,
              halves.1.2,
              halves.1.3.2,
              Ordered-le (a + (n + k) * block) hi ys rest,
            ),
            Spliced-after lo hi a xs ys gap merged _ halves.1.3.3,
          );
    at_head =
        li.at_head
        ∙ first-append xs (segment a n ∷ segment (a + n * block) k ∷ ys) null
        ∙ sym (first-append xs (segment a (n + k) ∷ ys) null);
  }

  pub merge_step-elsewhere : SameOutside a xs ys h (merge_step h a)
  merge_step-elsewhere = Spliced-elsewhere lo hi a xs ys gap merged
