-- ===== src/System/Console/Window.antt =====
-- The characters that a CharBuffer holds, as a list.
use os1_proj.Prelude.{
  ℕ, ◌+◌, ◌%◌, ◌≤◌, ◌<◌, ◌≢◌, false, true, ◌≡◌, refl, List, [], ◌∷◌, ◌++◌, ◌==◌, if◌then◌else◌,
  arith, length, length-append, ==_false, ==_iff,
}
use os1_proj.System.{CharBuffer}
use os1_proj.System.Console.{capacity, put, get}

-- From the position `r` on, round the end, the buffer holds the characters.
abbrev pub Window : (buffer : ℕ → ℕ) → ℕ → List ℕ → Type 0
Window buffer r [] = Unit {0}
Window buffer r (c ∷ cs) = (buffer r ≡ c) × Window buffer ((r + 1) % capacity) cs

pub record Holds (b : CharBuffer) (cs : List ℕ) : Type 0 where
  pub fits : length cs ≤ capacity
  pub reads : b.pos_r < capacity
  pub writes : b.pos_w ≡ (b.pos_r + length cs) % capacity
  pub window : Window b.buffer b.pos_r cs

abbrev write : (ℕ → ℕ) → (w c : ℕ) → ℕ → ℕ
write f w c = λ i. if i == w then c else f i

-- A character written behind the last one, if there is room.
write_end :
    (f : ℕ → ℕ) (r w c : ℕ) (cs : List ℕ)
    → r < capacity
    → w ≡ (r + length cs) % capacity
    → length cs < capacity
    → Window f r cs
    → Window (write f w c) r (cs ++ c ∷ [])
write_end f r w c [] b e m h =
    let same : r ≡ w = omega (arith, e, b) in
    let here : (r == w) ≡ true = (==_iff r w).1 same in (rw here refl, tt)
write_end f r w c (d ∷ cs) b e m h =
    let differs : r ≢ w = λ same. omega (arith, same, e, m, b) in
    let apart : (r == w) ≡ false = ==_false r w differs in
    (
      rw apart h.0,
      write_end f ((r + 1) % capacity) w c cs (omega arith) (omega (arith, e, m, b))
          (omega (arith, m)) h.1,
    )

-- If the buffer holds fewer than 256 characters, CharBuffer::put adds one behind them.
pub put-Holds :
    (b : CharBuffer) (c : ℕ) (cs : List ℕ)
    → length cs < capacity
    → Holds b cs
    → Holds (put b c) (cs ++ c ∷ [])
unfolding put
put-Holds b c cs room h = record {
  fits = omega (arith, room, length-append cs (c ∷ []));
  reads = h.reads;
  writes = omega (arith, h.writes, length-append cs (c ∷ []));
  window = write_end b.buffer b.pos_r b.pos_w c cs h.reads h.writes room h.window;
}

-- If the buffer holds characters, CharBuffer::get gives the first and leaves the others.
pub get-Holds :
    (b : CharBuffer) (c : ℕ) (cs : List ℕ) → Holds b (c ∷ cs) → ((get b).1 ≡ c) × Holds (get b).0 cs
unfolding get
get-Holds b c cs h = (
  h.window.0,
  record {
    fits = omega (arith, h.fits);
    reads = omega arith;
    writes = omega (arith, h.writes);
    window = h.window.1;
  },
)
