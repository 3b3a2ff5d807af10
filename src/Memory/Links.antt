-- ===== src/Memory/Links.antt =====
-- Doubly linked lists of segments in the header store, and what leaves them alone.
use os1_proj.Prelude.{
  ℕ, ◌+◌, ◌*◌, ◌≤◌, ◌<◌, ◌≡◌, ◌≢◌, ◌⊎◌, inl, refl, Bool, true, false, ◌||◌, List, [], ◌∷◌, ◌++◌,
  arith, ◌==◌,
}
use os1_proj.Memory.{Ptr, block, Heap}

-- A segment: the address of its header, and its size in blocks, the header's included.
pub record Segment : Type 0 where
  pub addr : Ptr
  pub size : ℕ

abbrev pub segment : Ptr → ℕ → Segment
segment a n = record { addr = a; size = n }

abbrev pub stop : Segment → Ptr
stop s = s.addr + s.size * block

-- The first address of a list, or `r` if it is empty; the last one, or `q`.
unfoldable pub first : List Segment → Ptr → Ptr
first [] r = r
first (s ∷ xs) r = s.addr

unfoldable pub last : Ptr → List Segment → Ptr
last q [] = q
last q (s ∷ xs) = last s.addr xs

-- Whether a segment of the list has the address.
unfoldable pub has : Ptr → List Segment → Bool
has x [] = false
has x (s ∷ xs) = (x == s.addr) || has x xs

-- The store links the list forth and back, between the node `q` and the node `r`.
abbrev pub Links : Heap → Ptr → List Segment → Ptr → Type 0
Links h q [] r = Unit {0}
Links h q (s ∷ xs) r =
    ((h s.addr).prev ≡ q)
    × ((h s.addr).next ≡ first xs r)
    × ((h s.addr).size ≡ s.size)
    × Links h s.addr xs r

-- Ascending, apart, within `lo` and `hi`, and not empty.
abbrev pub Ordered : ℕ → ℕ → List Segment → Type 0
Ordered lo hi [] = lo ≤ hi
Ordered lo hi (s ∷ xs) = (lo ≤ s.addr) × (0 < s.size) × Ordered (stop s) hi xs

pub Ordered-le : (lo hi : ℕ) (xs : List Segment) → Ordered lo hi xs → lo ≤ hi
Ordered-le lo hi [] o = o
Ordered-le lo hi (s ∷ xs) o = omega (arith, Ordered-le (stop s) hi xs o.2)

pub Ordered-weaken :
    (lo lo' hi : ℕ) (xs : List Segment) → lo' ≤ lo → Ordered lo hi xs → Ordered lo' hi xs
Ordered-weaken lo lo' hi [] h o = omega arith
Ordered-weaken lo lo' hi (s ∷ xs) h o = (omega arith, o.1, o.2)

pub Ordered-extend :
    (lo hi hi' : ℕ) (xs : List Segment) → hi ≤ hi' → Ordered lo hi xs → Ordered lo hi' xs
Ordered-extend lo hi hi' [] h o = omega arith
Ordered-extend lo hi hi' (s ∷ xs) h o = (o.0, o.1, Ordered-extend (stop s) hi hi' xs h o.2)

pub Ordered-append :
    (lo mid hi : ℕ) (xs ys : List Segment)
    → Ordered lo mid xs
    → Ordered mid hi ys
    → Ordered lo hi (xs ++ ys)
Ordered-append lo mid hi [] ys o p = Ordered-weaken mid lo hi ys o p
Ordered-append lo mid hi (s ∷ xs) ys o p = (o.0, o.1, Ordered-append (stop s) mid hi xs ys o.2 p)

-- Where the last address of a list lies.
pub last_bounds :
    (q lo hi : ℕ) (xs : List Segment)
    → Ordered lo hi xs
    → ((last q xs ≡ q) × (xs ≡ [])) ⊎ ((lo ≤ last q xs) × (last q xs < hi) × (xs ≢ []))
unfolding last
last_bounds q lo hi [] o = inl (refl, refl)
last_bounds q lo hi (s ∷ xs) o =
    ground (arith, last_bounds s.addr (stop s) hi xs o.2, Ordered-le (stop s) hi xs o.2)

pub first_bounds :
    (r lo hi : ℕ) (xs : List Segment)
    → Ordered lo hi xs
    → ((first xs r ≡ r) × (xs ≡ [])) ⊎ ((lo ≤ first xs r) × (first xs r < hi) × (xs ≢ []))
unfolding first
first_bounds r lo hi [] o = inl (refl, refl)
first_bounds r lo hi (s ∷ xs) o = ground (arith, Ordered-le (stop s) hi xs o.2)

pub has_bounds :
    (x lo hi : ℕ) (xs : List Segment) → Ordered lo hi xs → has x xs ≡ true → (lo ≤ x) × (x < hi)
unfolding has
has_bounds x lo hi [] o e = cc
has_bounds x lo hi (s ∷ xs) o e =
    ground (arith, has_bounds x (stop s) hi xs o.2, Ordered-le (stop s) hi xs o.2)

pub has-append : (x : Ptr) (xs ys : List Segment) → has x (xs ++ ys) ≡ (has x xs || has x ys)
unfolding has
has-append x [] ys = refl
has-append x (s ∷ xs) ys = ground (arith, has-append x xs ys)

-- The first address after a list is its successor's.
pub first-append : (xs ys : List Segment) (r : Ptr) → first (xs ++ ys) r ≡ first xs (first ys r)
unfolding first
first-append [] ys r = refl
first-append (s ∷ xs) ys r = refl

-- A change that spares the headers of a list leaves it linked.
pub Links-frame :
    (h g : Heap) (q r : Ptr) (xs : List Segment)
    → ((x : Ptr) → has x xs ≡ true → g x ≡ h x)
    → Links h q xs r
    → Links g q xs r
unfolding has
Links-frame h g q r [] same l = tt
Links-frame h g q r (s ∷ xs) same l =
    let e : g s.addr ≡ h s.addr = same s.addr (ground arith) in
    (rw e l.0, rw e l.1, rw e l.2, Links-frame h g s.addr r xs (λ x i. same x (ground arith)) l.3)

pub Links-append :
    (h : Heap) (q r : Ptr) (xs ys : List Segment)
    → Links h q xs (first ys r)
    → Links h (last q xs) ys r
    → Links h q (xs ++ ys) r
unfolding last
Links-append h q r [] ys l k = k
Links-append h q r (s ∷ xs) ys l k =
    (l.0, rw (first-append xs ys r) l.1, l.2, Links-append h s.addr r xs ys l.3 k)

pub Links-split :
    (h : Heap) (q r : Ptr) (xs ys : List Segment)
    → Links h q (xs ++ ys) r
    → Links h q xs (first ys r) × Links h (last q xs) ys r
unfolding last
Links-split h q r [] ys l = (tt, l)
Links-split h q r (s ∷ xs) ys l =
    let (a, b) = Links-split h s.addr r xs ys l.3 in
    ((l.0, rw (← first-append xs ys r) l.1, l.2, a), b)
