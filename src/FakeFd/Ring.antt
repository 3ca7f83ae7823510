-- ===== src/FakeFd/Ring.antt =====
-- The loops of source/fakefd.c that move bytes through the circular buffer of a pipe, and the one
-- that moves them to a buffer of another size.
use genshinimpact_nx.Base.{
  ℕ, zero, suc, ◌+◌, ◌-◌, ◌*◌, ◌/◌, ◌%◌, min, Bool, ◌&&◌, ◌||◌, Option, none, some, [], ◌∷◌, ◌++◌,
  Bytes, ltb, leb, ◌==◌, if◌then◌else◌, length, set, get_or, take, drop, replicate,
}
use genshinimpact_nx.FakeFd.Model.{
  pipe_atomic_cap, pipe_default_cap, Errno, eagain, epipe, Pipe, Outcome, returns, fails, waits,
}

-- `memcpy(buf + at, bytes, size)`, byte by byte; a write past the end of the buffer is dropped, and
-- `Ring.Window` shows that there is none.
unfoldable pub blit : Bytes → ℕ → Bytes → Bytes
blit buf at [] = buf
blit buf at (b ∷ bs) = blit (set buf at b) (at + 1) bs

-- One chunk of `fakefd_operation_write`: the two copies, and the new length.
unfoldable pub write_chunk : Pipe → Bytes → Pipe
unfolding blit
write_chunk p bytes =
    let tail = (p.head + p.len) % p.capacity in
    let first = min (p.capacity - tail) (length bytes) in
    record p {
      buf = blit (blit p.buf tail (take first bytes)) 0 (drop first bytes);
      len = p.len + length bytes;
    }

-- The condition on which a writer of `n` bytes waits while there is a reader.
unfoldable pub must_wait : ℕ → ℕ → ℕ → Bool
must_wait available wrote n =
    available == 0 || (wrote == 0 && (leb n pipe_atomic_cap && ltb available n))

-- What the loop returns where it stops early: the bytes already written, or an error.
abbrev pub stop_with : ℕ → Errno → Outcome
stop_with wrote e = if ltb 0 wrote then returns wrote else fails e

-- `while (wrote < n)` with the lock held. `rest` is `source + wrote`. The loop leaves it by a
-- return, or by a wait that releases the lock. Each round is one unit of fuel, and `none` means
-- that the fuel ran out; `Ring.Writes` shows that two are enough.
unfoldable pub write_loop : ℕ → Bool → ℕ → Pipe → Bytes → ℕ → Option (Outcome × Pipe)
write_loop zero nonblock n p rest wrote = none
write_loop (suc fuel) nonblock n p rest wrote =
    let available = p.capacity - p.len in
    let chunk = take available rest in
    let next =
      write_loop fuel nonblock n (write_chunk p chunk) (drop available rest)
        (wrote + length chunk) in
    if leb n wrote
    then some (returns wrote, p)
    else if must_wait available wrote n && ltb 0 p.readers
    then some ((if nonblock then stop_with wrote eagain else waits wrote), p)
    else if p.readers == 0
    then some (stop_with wrote epipe, p)
    else if nonblock && ltb (wrote + length chunk) n
    then some (returns (wrote + length chunk), write_chunk p chunk)
    else next

-- `while (got < n && pipe->len)`: at most `n` bytes leave the buffer.
unfoldable pub read_loop : ℕ → Pipe → Bytes × Pipe
read_loop zero p = ([], p)
read_loop (suc n) p =
    let rest = read_loop n (record p { head = (p.head + 1) % p.capacity; len = p.len - 1 }) in
    if p.len == 0 then ([], p) else (get_or p.buf p.head 0 ∷ rest.0, rest.1)

-- `for (i = 0; i < pipe->len; i++) replacement[i] = buf[(head + i) % capacity]`, from `i` on.
unfoldable pub linearise : Pipe → ℕ → ℕ → Bytes
linearise p i zero = []
linearise p i (suc n) = get_or p.buf ((p.head + i) % p.capacity) 0 ∷ linearise p (i + 1) n

-- `F_SETPIPE_SZ` rounds up to whole pages: `(argument + 4095) & ~4095`.
unfoldable pub round_capacity : ℕ → ℕ
round_capacity argument =
    let capacity = (argument + pipe_atomic_cap - 1) / pipe_atomic_cap * pipe_atomic_cap in
    if ltb capacity pipe_default_cap then pipe_default_cap else capacity

-- The pipe with its bytes in a new buffer of `capacity` bytes. The bytes of the new buffer that
-- are not copied have no value in the source; they are 0 here, and no operation reads them.
unfoldable pub move_buffer : Pipe → ℕ → Pipe
unfolding linearise
move_buffer p capacity = record p {
  buf = linearise p 0 p.len ++ replicate (capacity - p.len) 0;
  head = 0;
  capacity = capacity;
}
