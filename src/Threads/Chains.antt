-- ===== src/Threads/Chains.antt =====
-- Singly linked lists of thread control blocks, by whichever field links them.
use os1_proj.Prelude.{
  ◌≡◌, ◌≢◌, ◌⊎◌, inl, refl, Bool, true, false, ◌||◌, List, [], ◌∷◌, ◌++◌, arith, ◌==◌,
}
use os1_proj.Threads.{Ptr, null}

unfoldable pub member : Ptr → List Ptr → Bool
member x [] = false
member x (y ∷ ys) = (x == y) || member x ys

-- The last of a list that follows `q`.
unfoldable pub last : Ptr → List Ptr → Ptr
last q [] = q
last q (x ∷ xs) = last x xs

-- From `p`, the links lead through the threads of the list, and end.
abbrev pub Chain : (next : Ptr → Ptr) → Ptr → List Ptr → Type 0
Chain next p [] = p ≡ null
Chain next p (x ∷ xs) = (p ≡ x) × (x ≢ null) × Chain next (next x) xs

abbrev pub Distinct : List Ptr → Type 0
Distinct [] = Unit {0}
Distinct (x ∷ xs) = (member x xs ≡ false) × Distinct xs

-- Other links for the threads outside the list leave it as it is.
pub Chain-frame :
    (next next' : Ptr → Ptr) (p : Ptr) (xs : List Ptr)
    → ((x : Ptr) → member x xs ≡ true → next' x ≡ next x)
    → Chain next p xs
    → Chain next' p xs
unfolding member
Chain-frame next next' p [] same c = c
Chain-frame next next' p (x ∷ xs) same c =
    let e : next' x ≡ next x = same x (ground arith) in
    (c.0, c.1, rw e (Chain-frame next next' (next x) xs (λ y i. same y (ground arith)) c.2))

pub last-member :
    (q : Ptr) (xs : List Ptr) → ((last q xs ≡ q) × (xs ≡ [])) ⊎ (member (last q xs) xs ≡ true)
unfolding last member
last-member q [] = inl (refl, refl)
last-member q (x ∷ xs) = ground (arith, last-member x xs)

pub member-append_one :
    (y t : Ptr) (xs : List Ptr) → member y (xs ++ t ∷ []) ≡ (member y xs || (y == t))
unfolding member
member-append_one y t [] = ground arith
member-append_one y t (x ∷ xs) = ground (arith, member-append_one y t xs)

pub Distinct-append_one :
    (t : Ptr) (xs : List Ptr) → member t xs ≡ false → Distinct xs → Distinct (xs ++ t ∷ [])
unfolding member
Distinct-append_one t [] out d = (refl, tt)
Distinct-append_one t (x ∷ xs) out d =
    (ground (arith, member-append_one x t xs), Distinct-append_one t xs (ground arith) d.1)

pub last-append_one : (q t : Ptr) (xs : List Ptr) → last q (xs ++ t ∷ []) ≡ t
unfolding last
last-append_one q t [] = refl
last-append_one q t (x ∷ xs) = last-append_one x t xs

-- A thread linked behind the last one stands at the end.
pub Chain-append_one :
    (next next' : Ptr → Ptr) (p x t : Ptr) (xs : List Ptr)
    → t ≢ null
    → Distinct (x ∷ xs)
    → Chain next p (x ∷ xs)
    → next' (last x xs) ≡ t
    → next' t ≡ null
    → ((y : Ptr) → member y (x ∷ xs) ≡ true → y ≢ last x xs → next' y ≡ next y)
    → Chain next' p ((x ∷ xs) ++ t ∷ [])
unfolding last member
Chain-append_one next next' p x t [] nz d c e z same = (c.0, c.1, (e, nz, z))
Chain-append_one next next' p x t (y ∷ xs) nz d c e z same =
    let here : next' x ≡ next x = same x (ground arith) (ground (arith, last-member y xs)) in
    (
      c.0,
      c.1,
      rw here (
          Chain-append_one next next' (next x) y t xs nz d.1 c.2 e z
            (λ w i. same w (ground arith))),
    )
