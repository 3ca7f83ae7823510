-- ===== src/FakeFd/Writes.antt =====
-- The write loop of a pipe against a bounded queue of bytes.
use genshinimpact_nx.Base.{
  ℕ, zero, suc, ◌+◌, ◌-◌, ◌≤◌, ◌<◌, ◌≡◌, refl, ap, Bool, false, not, ◌&&◌, Option, none, some, [],
  ◌∷◌, ◌++◌, arith, Bytes, ltb, leb, ◌==◌, if◌then◌else◌, length, take, drop, length-take,
}
use genshinimpact_nx.FakeFd.Model.{Pipe, Outcome, returns, waits, eagain, epipe}
use genshinimpact_nx.FakeFd.Ring.{write_chunk, must_wait, stop_with, write_loop}
use genshinimpact_nx.FakeFd.Window.{contents, length-ring_bytes}
use genshinimpact_nx.FakeFd.Chunks.{IsRing, write_chunk_lem}

-- What a client sees of a write: the outcome, and the queue behind it. `rest` is what is left to
-- write after `wrote` bytes of `n`, and `room` the free space.
unfoldable pub send : Bool → Bool → ℕ → Bytes → ℕ → Bytes → ℕ → Outcome × Bytes
unfolding must_wait
send nonblock reader room q n rest wrote =
    if leb n wrote
    then (returns wrote, q)
    else if must_wait room wrote n && reader
    then ((if nonblock then stop_with wrote eagain else waits wrote), q)
    else if not reader
    then (stop_with wrote epipe, q)
    else if leb (length rest) room
    then (returns n, q ++ rest)
    else ((if nonblock then returns (wrote + room) else waits (wrote + room)), q ++ take room rest)

pub length-contents : (p : Pipe) → length (contents p) ≡ p.len
unfolding contents
length-contents p = length-ring_bytes p.buf p.capacity p.head p.len

-- A chunk changes the length by its own, and no other number of the pipe.
pub write_chunk_fields :
    (p : Pipe) (bs : Bytes)
    → ((write_chunk p bs).len ≡ p.len + length bs)
      × ((write_chunk p bs).capacity ≡ p.capacity)
      × ((write_chunk p bs).readers ≡ p.readers)
      × ((write_chunk p bs).writers ≡ p.writers)
unfolding write_chunk
write_chunk_fields p bs = (refl, refl, refl, refl)

pub take-all : (n : ℕ) (xs : Bytes) → length xs ≤ n → take n xs ≡ xs
take-all zero [] h = refl
take-all zero (x ∷ xs) h = absurd (omega arith)
take-all (suc n) [] h = refl
take-all (suc n) (x ∷ xs) h = ap (◌∷◌ x) (take-all n xs (omega arith))

-- The outcome of a loop, and what its pipe then holds.
abbrev pub view : Option (Outcome × Pipe) → Option (Outcome × Bytes)
view none = none
view (some (o, p)) = some (o, contents p)

abbrev pub Keeps : Option (Outcome × Pipe) → Type 0
Keeps none = ⊥
Keeps (some (o, p)) = IsRing p

module _ (nonblock : Bool) (p : Pipe) (n : ℕ) (rest : Bytes) (wrote : ℕ) (v : IsRing p) where
  abbrev room : ℕ
  room = p.capacity - p.len

  abbrev chunk : Bytes
  chunk = take room rest

  -- After a chunk a second round ends the loop at once.
  second_round :
      (f : ℕ)
      → wrote + length rest ≡ n
      → 0 < p.readers
      → (nonblock && ltb (wrote + length chunk) n) ≡ false
      → 0 < wrote + length chunk
      → write_loop (suc f) nonblock n (write_chunk p chunk) (drop room rest) (wrote + length chunk)
        ≡ some (
          (if leb (length rest) room then returns n else waits (wrote + room)),
          write_chunk p chunk,
        )
  unfolding write_loop must_wait
  second_round f total open_end blocks some_bytes =
      ground (arith, length-take room rest, write_chunk_fields p chunk, v.len_in)

  -- One round, with what follows it left as it is.
  round :
      (g : ℕ)
      → write_loop (suc g) nonblock n p rest wrote ≡ (
          if leb n wrote
          then some (returns wrote, p)
          else if must_wait room wrote n && ltb 0 p.readers
          then some ((if nonblock then stop_with wrote eagain else waits wrote), p)
          else if p.readers == 0
          then some (stop_with wrote epipe, p)
          else if nonblock && ltb (wrote + length chunk) n
          then some (returns (wrote + length chunk), write_chunk p chunk)
          else write_loop g nonblock n
              (write_chunk p chunk)
              (drop room rest)
              (wrote + length chunk))
  unfolding write_loop
  round g = refl

  appended : contents (write_chunk p chunk) ≡ contents p ++ chunk
  appended = (write_chunk_lem p chunk v (omega (arith, length-take room rest))).0

  -- The loop ends within two rounds, with the outcome of the queue and its bytes.
  pub write_loop_lem :
      (f : ℕ)
      → wrote + length rest ≡ n
      → view (write_loop (suc (suc f)) nonblock n p rest wrote)
        ≡ some (send nonblock (ltb 0 p.readers) room (contents p) n rest wrote)
  unfolding send must_wait
  write_loop_lem f total =
      rw (round (suc f))
        (ground (arith, second_round f total, length-take room rest, appended, take-all room rest))

  -- It keeps the buffer in order.
  pub write_loop-IsRing :
      (f : ℕ) → wrote + length rest ≡ n → Keeps (write_loop (suc (suc f)) nonblock n p rest wrote)
  unfolding must_wait
  write_loop-IsRing f total = rw (round (suc f)) (
      ground (
        arith,
        second_round f total,
        length-take room rest,
        (write_chunk_lem p chunk v (omega (arith, length-take room rest))).1,
      ))
