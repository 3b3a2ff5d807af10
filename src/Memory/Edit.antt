-- ===== src/Memory/Edit.antt =====
-- What the list operations do to the lists of segments.
use os1_proj.Prelude.{ℕ, ◌≤◌, ◌<◌, ◌≡◌, List, [], ◌∷◌, arith, ◌==◌, if◌then◌else◌}
use os1_proj.Memory.{Ptr, Heap}
use os1_proj.Memory.Links.{
  Segment, stop, first, last, Links, Ordered, Ordered-le, last_bounds, has_bounds, Links-frame,
}

-- A list whose last node gets another successor.
pub Links-relast :
    (h g : Heap) (q r r' lo hi : ℕ) (xs : List Segment)
    → Ordered lo hi xs
    → ((x : Ptr) → lo ≤ x → x < hi → (g x).prev ≡ (h x).prev)
    → ((x : Ptr) → lo ≤ x → x < hi → (g x).next ≡ (if x == last q xs then r' else (h x).next))
    → ((x : Ptr) → lo ≤ x → x < hi → (g x).size ≡ (h x).size)
    → Links h q xs r
    → Links g q xs r'
unfolding first last
Links-relast h g q r r' lo hi [] o ps ns ss l = tt
Links-relast h g q r r' lo hi (s ∷ []) o ps ns ss l =
    ground (arith, ps s.addr, ns s.addr, ss s.addr)
Links-relast h g q r r' lo hi (s ∷ t ∷ xs) o ps ns ss l = (
  ground (arith, ps s.addr, below),
  ground (arith, ns s.addr, below, above),
  ground (arith, ss s.addr, below),
  Links-relast h g s.addr r r' (stop s) hi (t ∷ xs) o.2 (λ x a b. ps x (omega arith) b)
      (λ x a b. ns x (omega arith) b) (λ x a b. ss x (omega arith) b) l.3,
)
  where
    below : stop s ≤ hi
    below = Ordered-le (stop s) hi (t ∷ xs) o.2

    above : stop s ≤ last s.addr (t ∷ xs)
    above = ground (arith, last_bounds s.addr (stop s) hi (t ∷ xs) o.2)

-- A list whose first node gets another predecessor.
pub Links-refirst :
    (h g : Heap) (q q' r lo hi : ℕ) (xs : List Segment)
    → Ordered lo hi xs
    → ((x : Ptr) → lo ≤ x → x < hi → (g x).prev ≡ (if x == first xs r then q' else (h x).prev))
    → ((x : Ptr) → lo ≤ x → x < hi → (g x).next ≡ (h x).next)
    → ((x : Ptr) → lo ≤ x → x < hi → (g x).size ≡ (h x).size)
    → Links h q xs r
    → Links g q' xs r
unfolding first
Links-refirst h g q q' r lo hi [] o ps ns ss l = tt
Links-refirst h g q q' r lo hi (s ∷ xs) o ps ns ss l = (
  ground (arith, ps s.addr, below),
  ground (arith, ns s.addr, below),
  ground (arith, ss s.addr, below),
  Links-frame h g s.addr r xs
      (λ x i. ground (arith, ps x, ns x, ss x, has_bounds x (stop s) hi xs o.2)) l.3,
)
  where
    below : stop s ≤ hi
    below = Ordered-le (stop s) hi xs o.2
