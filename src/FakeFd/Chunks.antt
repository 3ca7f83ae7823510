-- ===== src/FakeFd/Chunks.antt =====
-- One step of the pipe loops on a valid pipe: a chunk written, a byte read, the buffer replaced.
use genshinimpact_nx.Base.{
  ℕ, zero, suc, ◌+◌, ◌-◌, ◌%◌, ◌≤◌, ◌<◌, min, ◌≡◌, refl, sym, ap, ◌∙◌, ◌⊎◌, inr, [], ◌∷◌, ◌++◌,
  arith, Bytes, length, length-append, get_or, take, drop, replicate, length-take, length-drop,
  length-replicate,
}
use native.Mathlib.Decide.{dec_lt}
use native.Mathlib.Nat.{mod-add-mod, mod-mod, mod-eq_of_lt}
use mathlib.Core.Path.{ap₂}
use genshinimpact_nx.FakeFd.Model.{Pipe, pipe_atomic_cap, pipe_default_cap, pipe_max_cap}
use genshinimpact_nx.FakeFd.Ring.{
  blit, write_chunk, read_loop, linearise, round_capacity, move_buffer,
}
use genshinimpact_nx.FakeFd.Window.{
  ring_bytes, contents, length-ring_bytes, mod-cases, ring_bytes-append, ring_bytes_same,
  ring_bytes_list, linearise_lem, length-blit, get_or-blit_out, get_or-blit_in,
}

-- The buffer of an open pipe. The bound on the capacity keeps the additions of `size_t` from
-- wrapping.
pub record IsRing (p : Pipe) : Type 0 where
  pub storage : length p.buf ≡ p.capacity
  pub page : pipe_default_cap ≤ p.capacity
  pub small : p.capacity ≤ pipe_max_cap
  pub head_in : p.head < p.capacity
  pub len_in : p.len ≤ p.capacity

pub get_or-take : (xs : Bytes) (n m : ℕ) → m < n → get_or (take n xs) m 0 ≡ get_or xs m 0
get_or-take [] zero m h = refl
get_or-take [] (suc n) m h = refl
get_or-take (x ∷ xs) zero m h = absurd (omega arith)
get_or-take (x ∷ xs) (suc n) zero h = refl
get_or-take (x ∷ xs) (suc n) (suc m) h = get_or-take xs n m (omega arith)

pub get_or-drop : (xs : Bytes) (n m : ℕ) → get_or (drop n xs) m 0 ≡ get_or xs (n + m) 0
get_or-drop [] zero m = refl
get_or-drop [] (suc n) m = refl
get_or-drop (x ∷ xs) zero m = let e : 0 + m ≡ m = omega arith in rw e
get_or-drop (x ∷ xs) (suc n) m =
    let e : suc n + m ≡ suc (n + m) = omega arith in rw e (get_or-drop xs n m)

module _ (p : Pipe) (bs : Bytes) (v : IsRing p) (room : length bs ≤ p.capacity - p.len) where
  abbrev tail : ℕ
  tail = (p.head + p.len) % p.capacity

  abbrev first : ℕ
  first = min (p.capacity - tail) (length bs)

  abbrev one : Bytes
  one = blit p.buf tail (take first bs)

  abbrev two : Bytes
  two = blit one 0 (drop first bs)

  fits_one : tail + length (take first bs) ≤ length p.buf
  fits_one = omega (arith, length-take first bs, v.storage, v.head_in)

  fits_two : 0 + length (drop first bs) ≤ length one
  fits_two = omega (arith, length-drop first bs, length-blit p.buf (take first bs) tail, v.storage)

  -- The second copy ends before the first begins.
  apart : length (drop first bs) ≤ tail
  apart = omega (
    arith,
    length-drop first bs,
    mod-cases p.capacity (p.head + p.len) (omega (arith, v.head_in, v.len_in)),
    v.head_in,
    v.len_in,
  )

  old_bytes :
      (k : ℕ)
      → p.head ≤ k
      → k < p.head + p.len
      → get_or two (k % p.capacity) 0 ≡ get_or p.buf (k % p.capacity) 0
  old_bytes k lo hi =
      get_or-blit_out one (drop first bs) 0 (k % p.capacity) fits_two (inr after_two)
      ∙ get_or-blit_out p.buf (take first bs) tail (k % p.capacity) fits_one outside
    where
      after_two : 0 + length (drop first bs) ≤ k % p.capacity
      after_two = omega (
        arith,
        length-drop first bs,
        mod-cases p.capacity k (omega (arith, v.head_in, v.len_in)),
        mod-cases p.capacity (p.head + p.len) (omega (arith, v.head_in, v.len_in)),
      )

      outside : (k % p.capacity < tail) ⊎ (tail + length (take first bs) ≤ k % p.capacity)
      outside = grind (
        arith,
        length-take first bs,
        mod-cases p.capacity k (omega (arith, v.head_in, v.len_in)),
        mod-cases p.capacity (p.head + p.len) (omega (arith, v.head_in, v.len_in)),
      )

  new_bytes :
      (m : ℕ) → m < length bs → get_or two ((p.head + p.len + m) % p.capacity) 0 ≡ get_or bs m 0
  new_bytes m lt = elim (dec_lt m first) [
    | yes below ↦ rw (at_first below) (
        get_or-blit_out one (drop first bs) 0 (tail + m) fits_two (inr (omega (arith, apart)))
        ∙ get_or-blit_in p.buf (take first bs) tail m fits_one (omega (arith, length-take first bs))
        ∙ get_or-take bs first m below)
    | no above ↦ rw (at_second above) (
        get_or-blit_in one (drop first bs) 0 (m - first) fits_two
          (omega (arith, length-drop first bs))
        ∙ get_or-drop bs first (m - first)
        ∙ ap (λ k. get_or bs k 0) (omega arith))
  ]
    where
      wraps : (tail + m) % p.capacity ≡ (p.head + p.len + m) % p.capacity
      wraps = mod-add-mod (p.head + p.len) p.capacity m

      at_first : m < first → (p.head + p.len + m) % p.capacity ≡ tail + m
      at_first h = omega (arith, wraps, mod-cases p.capacity (tail + m) (omega arith))

      at_second : ¬ (m < first) → (p.head + p.len + m) % p.capacity ≡ 0 + (m - first)
      at_second h = omega (arith, wraps, mod-cases p.capacity (tail + m) (omega (arith, v.len_in)))

-- Writing a chunk that fits appends it to what the pipe holds, and keeps the buffer in order.
pub write_chunk_lem :
    (p : Pipe) (bs : Bytes)
    → IsRing p
    → length bs ≤ p.capacity - p.len
    → (contents (write_chunk p bs) ≡ contents p ++ bs) × IsRing (write_chunk p bs)
unfolding write_chunk contents
write_chunk_lem p bs v room = (
  ring_bytes-append _ p.capacity p.head p.len (length bs)
      ∙ ap₂ ◌++◌ (ring_bytes_same _ p.buf p.capacity p.head p.len (old_bytes p bs v room))
          (ring_bytes_list _ bs p.capacity (p.head + p.len) (new_bytes p bs v room)),
  record {
    storage =
        length-blit (one p bs v room) (drop (first p bs v room) bs) 0
        ∙ length-blit p.buf (take (first p bs v room) bs) (tail p bs v room)
        ∙ v.storage;
    page = v.page;
    small = v.small;
    head_in = v.head_in;
    len_in = omega (arith, v.len_in);
  },
)

-- `ring_bytes` reads positions modulo the capacity.
ring_bytes_cong :
    (buf : Bytes) (cap s t n : ℕ)
    → s % cap ≡ t % cap
    → ring_bytes buf cap s n ≡ ring_bytes buf cap t n
unfolding ring_bytes
ring_bytes_cong buf cap s t zero e = refl
ring_bytes_cong buf cap s t (suc n) e =
    ap₂ (λ k r. get_or buf k 0 ∷ r) e (ring_bytes_cong buf cap (s + 1) (t + 1) n next)
  where
    next : (s + 1) % cap ≡ (t + 1) % cap
    next = sym (mod-add-mod s cap 1) ∙ ap (λ k. (k + 1) % cap) e ∙ mod-add-mod t cap 1

-- The pipe after one byte has been read.
abbrev popped : Pipe → Pipe
popped p = record p { head = (p.head + 1) % p.capacity; len = p.len - 1 }

contents-popped :
    (p : Pipe) (l : ℕ)
    → IsRing p
    → p.len ≡ suc l
    → (contents p ≡ get_or p.buf p.head 0 ∷ contents (popped p)) × IsRing (popped p)
unfolding contents ring_bytes
contents-popped p l v e = (
  rw e (
      ap₂ (λ k r. get_or p.buf k 0 ∷ r) (mod-eq_of_lt v.head_in)
        (ring_bytes_cong p.buf p.capacity (p.head + 1) ((p.head + 1) % p.capacity) l
            (sym (mod-mod (p.head + 1) p.capacity))
          ∙ ap (ring_bytes p.buf p.capacity ((p.head + 1) % p.capacity)) (omega arith))),
  record {
    storage = v.storage;
    page = v.page;
    small = v.small;
    head_in = omega (arith, v.head_in);
    len_in = omega (arith, v.len_in);
  },
)

contents-empty : (p : Pipe) → p.len ≡ 0 → contents p ≡ []
unfolding contents ring_bytes
contents-empty p e = rw e

get_or-append : (xs ys : Bytes) (m : ℕ) → m < length xs → get_or (xs ++ ys) m 0 ≡ get_or xs m 0
get_or-append [] ys m h = absurd (omega arith)
get_or-append (x ∷ xs) ys zero h = refl
get_or-append (x ∷ xs) ys (suc m) h = get_or-append xs ys m (omega arith)

-- A buffer whose front is `bs` holds `bs` from position 0 on.
ring_bytes_front :
    (bs more : Bytes) (cap : ℕ) → length bs ≤ cap → ring_bytes (bs ++ more) cap 0 (length bs) ≡ bs
ring_bytes_front bs more cap h = ring_bytes_list (bs ++ more) bs cap 0 here
  where
    here : (m : ℕ) → m < length bs → get_or (bs ++ more) ((0 + m) % cap) 0 ≡ get_or bs m 0
    here m lt =
        let e : (0 + m) % cap ≡ m = ap (λ k. k % cap) (omega arith) ∙ mod-eq_of_lt (omega arith) in
        rw e (get_or-append bs more m lt)

-- A read takes up to `n` bytes from the front, and leaves the rest.
pub read_loop_lem :
    (n : ℕ) (p : Pipe)
    → IsRing p
    → ((read_loop n p).0 ≡ take n (contents p))
      × (contents (read_loop n p).1 ≡ drop n (contents p))
      × IsRing (read_loop n p).1
unfolding read_loop
read_loop_lem zero p v = (refl, refl, v)
read_loop_lem (suc n) p v = split (λ w. read_loop_lem n (popped p) w) p.len refl
  where
    split :
        (IsRing (popped p)
          → ((read_loop n (popped p)).0 ≡ take n (contents (popped p)))
            × (contents (read_loop n (popped p)).1 ≡ drop n (contents (popped p)))
            × IsRing (read_loop n (popped p)).1)
        → (l : ℕ) → p.len ≡ l
        → ((read_loop (suc n) p).0 ≡ take (suc n) (contents p))
          × (contents (read_loop (suc n) p).1 ≡ drop (suc n) (contents p))
          × IsRing (read_loop (suc n) p).1
    split ih zero e = ground (arith, contents-empty p e)
    split ih (suc l) e = let (front, w) = contents-popped p l v e in ground (arith, front, ih w)

pub round_capacity_lem :
    (a : ℕ)
    → 0 < a
    → a ≤ pipe_max_cap
    → (a ≤ round_capacity a)
      × (round_capacity a < a + pipe_atomic_cap)
      × (round_capacity a % pipe_atomic_cap ≡ 0)
      × (pipe_default_cap ≤ round_capacity a)
      × (round_capacity a ≤ pipe_max_cap)
unfolding round_capacity
round_capacity_lem a pos_a h = ground arith

-- A pipe that moves to a buffer that is large enough holds the same bytes.
pub move_buffer_lem :
    (p : Pipe) (capacity : ℕ)
    → p.len ≤ capacity
    → pipe_default_cap ≤ capacity
    → capacity ≤ pipe_max_cap
    → (contents (move_buffer p capacity) ≡ contents p) × IsRing (move_buffer p capacity)
unfolding move_buffer contents
move_buffer_lem p capacity fits lo hi = (
  ap (ring_bytes (row ++ replicate (capacity - p.len) 0) capacity 0) (sym count)
      ∙ ring_bytes_front row (replicate (capacity - p.len) 0) capacity (omega (arith, count))
      ∙ linearise_lem p 0 p.len
      ∙ ap (λ s. ring_bytes p.buf p.capacity s p.len) (omega arith),
  record {
    storage = omega (
      arith,
      length-append row (replicate (capacity - p.len) 0),
      length-replicate {A = ℕ} (capacity - p.len) 0,
      count,
    );
    page = lo;
    small = hi;
    head_in = omega arith;
    len_in = fits;
  },
)
  where
    row : Bytes
    row = linearise p 0 p.len

    count : length row ≡ p.len
    count =
        ap length (linearise_lem p 0 p.len) ∙ length-ring_bytes p.buf p.capacity (p.head + 0) p.len
