-- ===== src/Memory/Cells.antt =====
-- The list operations of src/memoryManager.cpp, header by header: what each of them leaves in the
-- header at every address.
use os1_proj.Prelude.{
  ℕ, ◌-◌, ◌+w◌, ◌*w◌, ◌<◌, ◌≡◌, ◌≢◌, true, ◌&&◌, not, arith, ◌==◌, if◌then◌else◌,
}
use os1_proj.Memory.{
  Ptr, null, block, Heap, set_prev, set_next, set_size, set_prev_if, unlinked, remove, reduce,
  relocate, insert_after, insert_as_head,
}

-- `g` is `h` with the neighbours `l` and `f` leading to `nf` and `nl`, and with the links and the
-- size of the node `a` given anew. A neighbour that is null is no node.
pub record Spliced (h g : Heap) (a l f nf nl p n s : ℕ) : Type 0 where
  pub prevs :
      (x : Ptr)
      → (g x).prev ≡ (if x == a then p else if not (f == null) && (x == f) then nl else (h x).prev)
  pub nexts :
      (x : Ptr)
      → (g x).next ≡ (if x == a then n else if not (l == null) && (x == l) then nf else (h x).next)
  pub sizes : (x : Ptr) → (g x).size ≡ (if x == a then s else (h x).size)

-- The addresses of a node and of its neighbours differ.
pub record IsPlace (a l f : ℕ) : Type 0 where
  pub ne_null : a ≢ null
  pub ne_last : a ≢ l
  pub ne_first : a ≢ f

module _ (h : Heap) (head a l f : ℕ) (d : IsPlace a l f) where
  module _ (pe : (h a).prev ≡ l) (ne : (h a).next ≡ f) where
    -- The node is the head of its list exactly when no node stands before it.
    pub remove-Spliced :
        ((head == a) ≡ (l == null)) → Spliced h (remove h head a).0 a l f f l null null (h a).size
    unfolding remove set_prev set_next set_prev_if unlinked
    remove-Spliced he = record {
      prevs = λ x. ground arith;
      nexts = λ x. ground arith;
      sizes = λ x. ground arith;
    }

    pub remove-head :
        ((head == a) ≡ (l == null)) → (remove h head a).1 ≡ (if l == null then f else head)
    unfolding remove
    remove-head he = ground arith

  pub insert_as_head-Spliced :
      l ≡ null → head ≡ f → Spliced h (insert_as_head h head a).0 a l f a a l f (h a).size
  unfolding insert_as_head set_prev set_next set_prev_if
  insert_as_head-Spliced e k = record {
    prevs = λ x. ground arith;
    nexts = λ x. ground arith;
    sizes = λ x. ground arith;
  }

  pub insert_after-Spliced :
      l ≢ null → l ≢ f → (h l).next ≡ f → Spliced h (insert_after h l a) a l f a a l f (h a).size
  unfolding insert_after set_prev set_next set_prev_if
  insert_after-Spliced e k q = record {
    prevs = λ x. ground arith;
    nexts = λ x. ground arith;
    sizes = λ x. ground arith;
  }

-- The header that `reduce` leaves at the old address.
unfoldable pub cut_off : Heap → Ptr → ℕ → Heap
cut_off h a k x = if x == a then record { prev = null; next = null; size = k } else h x

module _ (h : Heap) (head a b l f k : ℕ) (d : IsPlace b l f) (c : IsPlace a l f) (ab : a ≢ b)
    (pe : (h a).prev ≡ l) (ne : (h a).next ≡ f) (he : (head == a) ≡ (l == null)) where
  pub relocate-Spliced :
      Spliced (cut_off h a k) (relocate h head a b k).0 b l f b b l f ((h a).size - k)
  unfolding relocate set_prev set_next set_prev_if unlinked set_size cut_off
  relocate-Spliced = record {
    prevs = λ x. ground arith;
    nexts = λ x. ground arith;
    sizes = λ x. ground arith;
  }

  pub relocate-head : (relocate h head a b k).1 ≡ (if l == null then b else head)
  unfolding relocate
  relocate-head = ground arith

  pub reduce-relocate :
      b ≡ a +w k *w block
      → 0 < k
      → k < (h a).size
      → reduce h head a k ≡ (true, (relocate h head a b k).0, (relocate h head a b k).1)
  unfolding reduce
  reduce-relocate be kp kl = rw be (ground arith)
