-- ===== src/Memory/Search.antt =====
-- MSH::findBySize and MSH::findByPointer on lists of segments, with enough fuel for their loops.
use os1_proj.Prelude.{
  ℕ, ◌≤◌, ◌<◌, ◌≡◌, refl, true, false, List, [], ◌∷◌, ◌++◌, arith, ◌==◌, suc, length, zero, not,
  ◌&&◌, leb, ◌⊎◌, inl,
}
use os1_proj.Memory.{Ptr, null, Heap, find_by_size, find_by_pointer, find_by_pointer_loop}
use os1_proj.Memory.Links.{
  Segment, stop, first, last, has, Links, Ordered, Ordered-le, first_bounds,
}

-- No segment of the list has `k` blocks.
abbrev pub AllBelow : ℕ → List Segment → Type 0
AllBelow k [] = Unit {0}
AllBelow k (s ∷ xs) = (s.size < k) × AllBelow k xs

pub find_by_size-none :
    (fuel : ℕ) (h : Heap) (q lo hi k : ℕ) (xs : List Segment)
    → 0 < lo
    → Ordered lo hi xs
    → Links h q xs null
    → AllBelow k xs
    → find_by_size fuel h (first xs null) k ≡ null
unfolding find_by_size first
find_by_size-none zero h q lo hi k xs pos o l small = refl
find_by_size-none (suc fuel) h q lo hi k [] pos o l small = refl
find_by_size-none (suc fuel) h q lo hi k (s ∷ xs) pos o l small = ground (
  arith,
  find_by_size-none fuel h s.addr (stop s) hi k xs (omega arith) o.2 l.3 small.1,
  first xs null,
)

pub find_by_size-hit :
    (fuel : ℕ) (h : Heap) (q lo hi k : ℕ) (xs : List Segment) (s : Segment) (ys : List Segment)
    → 0 < lo
    → Ordered lo hi (xs ++ s ∷ ys)
    → Links h q (xs ++ s ∷ ys) null
    → AllBelow k xs
    → k ≤ s.size
    → length xs < fuel
    → find_by_size fuel h (first (xs ++ s ∷ ys) null) k ≡ s.addr
unfolding find_by_size first
find_by_size-hit zero h q lo hi k xs s ys pos o l small fits f = absurd (omega arith)
find_by_size-hit (suc fuel) h q lo hi k [] s ys pos o l small fits f = ground arith
find_by_size-hit (suc fuel) h q lo hi k (t ∷ xs) s ys pos o l small fits f = ground (
  arith,
  find_by_size-hit fuel h t.addr (stop t) hi k xs s ys (omega arith) o.2 l.3 small.1 fits
      (omega arith),
)

-- No header of the list is null or lies behind `a`.
abbrev pub AllUpTo : Ptr → List Segment → Type 0
AllUpTo a [] = Unit {0}
AllUpTo a (s ∷ xs) = (0 < s.addr) × (s.addr ≤ a) × AllUpTo a xs

pub Ordered-AllUpTo : (lo a : ℕ) (xs : List Segment) → 0 < lo → Ordered lo (suc a) xs → AllUpTo a xs
Ordered-AllUpTo lo a [] pos o = tt
Ordered-AllUpTo lo a (s ∷ xs) pos o = (
  omega arith,
  omega (arith, Ordered-le (stop s) (suc a) xs o.2),
  Ordered-AllUpTo (stop s) a xs (omega arith) o.2,
)

pub AllUpTo-append :
    (a : ℕ) (xs ys : List Segment) → AllUpTo a xs → AllUpTo a ys → AllUpTo a (xs ++ ys)
AllUpTo-append a [] ys o p = p
AllUpTo-append a (s ∷ xs) ys o p = (o.0, o.1, AllUpTo-append a xs ys o.2 p)

-- The walk ends at the last segment of `xs`, where all of `ys` lie behind `a`.
find_by_pointer_loop-last :
    (fuel : ℕ) (h : Heap) (p a hi : ℕ) (xs ys : List Segment)
    → AllUpTo a xs
    → Ordered (suc a) hi ys
    → (h p).next ≡ first (xs ++ ys) null
    → Links h p (xs ++ ys) null
    → length xs < fuel
    → find_by_pointer_loop fuel h p a ≡ last p xs
unfolding find_by_pointer_loop first last
find_by_pointer_loop-last zero h p a hi xs ys o o' e l f = absurd (omega arith)
find_by_pointer_loop-last (suc fuel) h p a hi [] ys o o' e l f =
    ground (arith, first_bounds null (suc a) hi ys o')
find_by_pointer_loop-last (suc fuel) h p a hi (s ∷ xs) ys o o' e l f =
    ground (arith, find_by_pointer_loop-last fuel h s.addr a hi xs ys o.2 o' l.1 l.3 (omega arith))

in_reach : (x a : ℕ) → 0 < x → x ≤ a → (not (x == null) && leb x a) ≡ true
in_reach x a p h = ground arith

out_of_reach : (x a : ℕ) → a < x → (not (x == null) && leb x a) ≡ false
out_of_reach x a h = ground arith

-- The last segment whose header does not lie behind `a`; null if there is none.
pub find_by_pointer-last :
    (fuel : ℕ) (h : Heap) (a hi : ℕ) (xs ys : List Segment)
    → AllUpTo a xs
    → Ordered (suc a) hi ys
    → Links h null (xs ++ ys) null
    → length xs ≤ fuel
    → find_by_pointer fuel h (first (xs ++ ys) null) a ≡ last null xs
unfolding find_by_pointer first last
find_by_pointer-last fuel h a hi [] [] o o' l f = refl
find_by_pointer-last fuel h a hi [] (t ∷ ys) o o' l f = rw (out_of_reach t.addr a (omega arith))
find_by_pointer-last fuel h a hi (s ∷ xs) ys o o' l f =
    rw (in_reach s.addr a o.0 o.1)
      (find_by_pointer_loop-last fuel h s.addr a hi xs ys o.2 o' l.1 l.3 (omega arith))

-- Every walk ends where it began, or at a segment of the list.
find_by_pointer_loop-has :
    (fuel : ℕ) (h : Heap) (p a : ℕ) (xs : List Segment)
    → (h p).next ≡ first xs null
    → Links h p xs null
    → (find_by_pointer_loop fuel h p a ≡ p) ⊎ (has (find_by_pointer_loop fuel h p a) xs ≡ true)
unfolding find_by_pointer_loop first has
find_by_pointer_loop-has zero h p a xs e l = inl refl
find_by_pointer_loop-has (suc fuel) h p a [] e l = inl (ground arith)
find_by_pointer_loop-has (suc fuel) h p a (s ∷ xs) e l =
    ground (arith, find_by_pointer_loop-has fuel h s.addr a xs l.1 l.3)

-- The search finds a segment of the list, or nothing.
pub find_by_pointer-has :
    (fuel : ℕ) (h : Heap) (a : ℕ) (xs : List Segment)
    → Links h null xs null
    → (find_by_pointer fuel h (first xs null) a ≡ null)
      ⊎ (has (find_by_pointer fuel h (first xs null) a) xs ≡ true)
unfolding find_by_pointer first has
find_by_pointer-has fuel h a [] l = inl refl
find_by_pointer-has fuel h a (s ∷ xs) l =
    ground (arith, find_by_pointer_loop-has fuel h s.addr a xs l.1 l.3)
