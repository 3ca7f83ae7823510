-- ===== src/FakeFd/Window.antt =====
-- What the circular buffer of a pipe holds, and the buffer after `memcpy` into it.
use genshinimpact_nx.Base.{
  ℕ, zero, suc, ◌+◌, ◌-◌, ◌%◌, ◌≤◌, ◌<◌, ◌≡◌, refl, ap, ◌∙◌, ◌⊎◌, inl, inr, [], ◌∷◌, ◌++◌, arith,
  Bytes, ◌==◌, if◌then◌else◌, length, set, length-set, get_or,
}
use native.Mathlib.Nat.{mod-eq_of_lt, mod-eq-sub-mod}
use native.Mathlib.Decide.{dec_lt}
use genshinimpact_nx.FakeFd.Model.{Pipe}
use genshinimpact_nx.FakeFd.Ring.{blit, linearise}

-- The `n` bytes at the positions from `s` on, each taken modulo the capacity.
unfoldable pub ring_bytes : Bytes → ℕ → ℕ → ℕ → Bytes
ring_bytes buf cap s zero = []
ring_bytes buf cap s (suc n) = get_or buf (s % cap) 0 ∷ ring_bytes buf cap (s + 1) n

unfoldable pub contents : Pipe → Bytes
contents p = ring_bytes p.buf p.capacity p.head p.len

pub length-ring_bytes : (buf : Bytes) (cap s n : ℕ) → length (ring_bytes buf cap s n) ≡ n
unfolding ring_bytes
length-ring_bytes buf cap s zero = refl
length-ring_bytes buf cap s (suc n) = ap suc (length-ring_bytes buf cap (s + 1) n)

-- A position below twice the capacity wraps at most once.
pub mod-cases :
    (cap x : ℕ) → x < cap + cap → ((x < cap) × (x % cap ≡ x)) ⊎ ((cap ≤ x) × (x % cap ≡ x - cap))
mod-cases cap x h = elim (dec_lt x cap) [
  | yes p ↦ inl (p, mod-eq_of_lt p)
  | no p ↦ inr (
    omega arith,
    omega (
      arith,
      mod-eq-sub-mod {n = x} {m = cap} (omega arith),
      mod-eq_of_lt {n = x - cap} {m = cap} (omega arith),
    ),
  )
]

pub ring_bytes-append :
    (buf : Bytes) (cap s n m : ℕ)
    → ring_bytes buf cap s (n + m) ≡ ring_bytes buf cap s n ++ ring_bytes buf cap (s + n) m
unfolding ring_bytes
ring_bytes-append buf cap s zero m =
    let e : s + 0 ≡ s = omega arith in let e' : 0 + m ≡ m = omega arith in rw (e, e') refl
ring_bytes-append buf cap s (suc n) m =
    let e : s + suc n ≡ s + 1 + n = omega arith in
    let e' : suc n + m ≡ suc (n + m) = omega arith in
    rw (e, e') (ap (◌∷◌ (get_or buf (s % cap) 0)) (ring_bytes-append buf cap (s + 1) n m))

-- Two buffers that agree at the positions read hold the same bytes.
pub ring_bytes_same :
    (b b' : Bytes) (cap s n : ℕ)
    → ((k : ℕ) → s ≤ k → k < s + n → get_or b (k % cap) 0 ≡ get_or b' (k % cap) 0)
    → ring_bytes b cap s n ≡ ring_bytes b' cap s n
unfolding ring_bytes
ring_bytes_same b b' cap s zero h = refl
ring_bytes_same b b' cap s (suc n) h = cc (
  h s (omega arith) (omega arith),
  ring_bytes_same b b' cap (s + 1) n (λ k lo hi. h k (omega arith) (omega arith)),
)

-- A buffer with the bytes `bs` at the positions from `s` on holds `bs` there.
pub ring_bytes_list :
    (b bs : Bytes) (cap s : ℕ)
    → ((m : ℕ) → m < length bs → get_or b ((s + m) % cap) 0 ≡ get_or bs m 0)
    → ring_bytes b cap s (length bs) ≡ bs
unfolding ring_bytes
ring_bytes_list b [] cap s h = refl
ring_bytes_list b (x ∷ bs) cap s h = cc (first, ring_bytes_list b bs cap (s + 1) later)
  where
    first : get_or b (s % cap) 0 ≡ x
    first = let e : s + 0 ≡ s = omega arith in rw e at (h 0 (omega arith))

    later : (m : ℕ) → m < length bs → get_or b ((s + 1 + m) % cap) 0 ≡ get_or bs m 0
    later m lt = let e : s + suc m ≡ s + 1 + m = omega arith in rw e at (h (suc m) (omega arith))

pub linearise_lem :
    (p : Pipe) (i n : ℕ) → linearise p i n ≡ ring_bytes p.buf p.capacity (p.head + i) n
unfolding linearise ring_bytes
linearise_lem p i zero = refl
linearise_lem p i (suc n) =
    let e : p.head + i + 1 ≡ p.head + (i + 1) = omega arith in
    rw e (ap (◌∷◌ (get_or p.buf ((p.head + i) % p.capacity) 0)) (linearise_lem p (i + 1) n))

pub length-blit : (buf bs : Bytes) (at : ℕ) → length (blit buf at bs) ≡ length buf
unfolding blit
length-blit buf [] at = refl
length-blit buf (b ∷ bs) at = length-blit (set buf at b) bs (at + 1) ∙ length-set buf at b

pub get_or-set :
    (xs : Bytes) (i j v : ℕ)
    → i < length xs
    → get_or (set xs i v) j 0 ≡ (if i == j then v else get_or xs j 0)
get_or-set [] i j v h = absurd (omega arith)
get_or-set (x ∷ xs) zero zero v h = refl
get_or-set (x ∷ xs) zero (suc j) v h = ground arith
get_or-set (x ∷ xs) (suc i) zero v h = ground arith
get_or-set (x ∷ xs) (suc i) (suc j) v h = ground (arith, get_or-set xs i j v)

-- Outside the bytes written a buffer stays as it was.
pub get_or-blit_out :
    (buf bs : Bytes) (at j : ℕ)
    → at + length bs ≤ length buf
    → (j < at) ⊎ (at + length bs ≤ j)
    → get_or (blit buf at bs) j 0 ≡ get_or buf j 0
unfolding blit
get_or-blit_out buf [] at j h o = refl
get_or-blit_out buf (b ∷ bs) at j h o = ground (
  arith,
  get_or-blit_out (set buf at b) bs (at + 1) j,
  get_or-set buf at j b,
  length-set buf at b,
)

-- Inside them it holds the bytes written.
pub get_or-blit_in :
    (buf bs : Bytes) (at m : ℕ)
    → at + length bs ≤ length buf
    → m < length bs
    → get_or (blit buf at bs) (at + m) 0 ≡ get_or bs m 0
unfolding blit
get_or-blit_in buf [] at m h lt = absurd (omega arith)
get_or-blit_in buf (b ∷ bs) at zero h lt =
    let e : at + 0 ≡ at = omega arith in
    rw e (
      ground (
        arith,
        get_or-blit_out (set buf at b) bs (at + 1) at,
        get_or-set buf at at b,
        length-set buf at b,
      ))
get_or-blit_in buf (b ∷ bs) at (suc m) h lt =
    let e : at + suc m ≡ at + 1 + m = omega arith in
    rw e (
      get_or-blit_in (set buf at b) bs (at + 1) m (omega (arith, length-set buf at b))
        (omega arith))
