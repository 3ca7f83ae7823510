-- ===== src/FakeFd/Transfers.antt =====
-- Reads and writes of source/fakefd.c. A call that would block releases the lock inside
-- `condvarWait`: the model returns `waits`, and `resume_write` or `resume_read` is the call when it
-- has the lock again. Between the two any other call may run.
use genshinimpact_nx.Base.{
  ℕ, zero, suc, ◌+◌, ◌-◌, ◌*◌, ◌/◌, ◌%◌, ◌^◌, Bool, not, ◌&&◌, Option, none, some, [], ◌∷◌, ℤ,
  Bytes, ltb, ◌==◌, if◌then◌else◌, length, take, ◌>>=◌,
}
use genshinimpact_nx.FakeFd.Model.{
  uint64_max, ebadf, einval, efault, eagain, Kind, pipe_r, pipe_w, event, random, same_kind, Pipe,
  OpenRef, State, Outcome, returns, fails, waits,
}
use genshinimpact_nx.FakeFd.Table.{Heap, update, get_open, open_retain_locked, open_release_locked}
use genshinimpact_nx.FakeFd.Descriptors.{fakefd_operation_acquire, fakefd_operation_release}
use genshinimpact_nx.FakeFd.Ring.{write_loop, read_loop}

-- A `uint64_t` in memory, least byte first.
unfoldable pub to_bytes : ℕ → ℕ → Bytes
to_bytes zero value = []
to_bytes (suc n) value = value % 256 ∷ to_bytes n (value / 256)

unfoldable pub of_bytes : Bytes → ℕ
of_bytes [] = 0
of_bytes (b ∷ bs) = b + 256 * of_bytes bs

-- The description is released when the call leaves, and kept while it waits.
unfoldable pub settle : OpenRef → Outcome → Heap → Option Heap
settle o (waits _) h = some h
settle o _ h = open_release_locked o h

-- `value > UINT64_MAX - 1 - counter->event_value`, the subtraction on `uint64_t`.
unfoldable pub event_full : ℕ → ℕ → Bool
event_full value counter = ltb ((uint64_max - 1 + 2 ^ 64 - counter) % 2 ^ 64) value

unfoldable pub add_event : Bool → ℕ → Pipe → Outcome × Pipe
unfolding event_full
add_event nonblock value p =
    if event_full value p.event_value
    then ((if nonblock then fails eagain else waits 0), p)
    else (returns 8, record p { event_value = (p.event_value + value) % 2 ^ 64 })

-- From the loop on, with the description retained. `rest` is what is left of the source, or the
-- eight bytes of an event.
unfoldable pub resume_write : OpenRef → ℕ → Bytes → ℕ → State → Option (Outcome × State)
unfolding settle
resume_write o n rest wrote s = do
  p ← s.heap o.pipe
  let nonblock = (get_open o.kind p).nonblock
  (out, q) ← elim o.kind [
    | event ↦ some (add_event nonblock (of_bytes rest) p)
    | _ ↦ write_loop 2 nonblock n p rest wrote
  ]
  heap ← settle o out (update s.heap o.pipe (some q))
  some (out, record s { heap = heap })

-- The checks of a write before its loop; `none` when they pass.
unfoldable pub refuse_write : Kind → Option Bytes → ℕ → Option Outcome
refuse_write event buf n = if ltb n 8 then some (fails einval) else elim buf [
  | none ↦ some (fails efault)
  | some bytes ↦ if of_bytes (take 8 bytes) == uint64_max then some (fails einval) else none
]
refuse_write k buf n = if n == 0 then some (returns 0) else elim buf [
  | none ↦ some (fails efault)
  | some bytes ↦ if same_kind k pipe_w then none else some (fails ebadf)
]

-- The bytes that the loop is given.
abbrev pub source_of : Kind → Option Bytes → ℕ → Bytes
source_of k none n = []
source_of event (some bytes) n = take 8 bytes
source_of _ (some bytes) n = take n bytes

-- `buf` is the memory behind the pointer, or none for NULL. A live description is read before the
-- checks.
unfoldable pub fakefd_operation_write :
    Option OpenRef → Option Bytes → ℕ → State → Option (Outcome × State)
unfolding resume_write refuse_write
fakefd_operation_write none buf n s = some (fails ebadf, s)
fakefd_operation_write (some o) buf n s = do
  p ← s.heap o.pipe
  elim (refuse_write o.kind buf n) [
    | some out ↦ some (out, s)
    | none ↦ do
      heap ← open_retain_locked o s.heap
      resume_write o n (source_of o.kind buf n) 0 (record s { heap = heap })
  ]

unfoldable pub take_event : Bool → Pipe → Outcome × Bytes × Pipe
take_event nonblock p =
    let value = if p.event_semaphore then 1 else p.event_value in
    if p.event_value == 0
    then ((if nonblock then fails eagain else waits 0), [], p)
    else (returns 8, to_bytes 8 value, record p { event_value = p.event_value - value })

unfoldable pub take_bytes : Bool → ℕ → Pipe → Outcome × Bytes × Pipe
take_bytes nonblock n p =
    let r = read_loop n p in
    if p.len == 0 && ltb 0 p.writers
    then ((if nonblock then fails eagain else waits 0), [], p)
    else (returns (length r.0), r.0, r.1)

-- The checks of a read before its loop. `buf` is whether the pointer is not NULL.
unfoldable pub refuse_read : Kind → Bool → ℕ → Option Outcome
refuse_read random buf n =
    if n == 0
    then some (returns 0)
    else if not buf
    then some (fails efault)
    else if ltb (2 ^ 63 - 1) n
    then some (fails einval)
    else none
refuse_read event buf n =
    if ltb n 8 then some (fails einval) else if not buf then some (fails efault) else none
refuse_read k buf n =
    if n == 0
    then some (returns 0)
    else if not buf
    then some (fails efault)
    else if same_kind k pipe_r
    then none
    else some (fails ebadf)

module _ (random_get : ℕ → Bytes) where
  -- `random_get` is `randomGet` of libnx. It runs with the lock released and the description
  -- retained, so nothing that others do meanwhile reaches it.
  unfoldable pub resume_read : OpenRef → ℕ → State → Option (Outcome × Bytes × State)
  unfolding settle
  resume_read o n s = do
    p ← s.heap o.pipe
    let nonblock = (get_open o.kind p).nonblock
    let r : Outcome × Bytes × Pipe = elim o.kind [
      | random ↦ (returns n, random_get n, p)
      | event ↦ take_event nonblock p
      | _ ↦ take_bytes nonblock n p
    ]
    heap ← settle o r.0 (update s.heap o.pipe (some (r.2)))
    some (r.0, r.1, record s { heap = heap })

  unfoldable pub fakefd_operation_read :
      Option OpenRef → Bool → ℕ → State → Option (Outcome × Bytes × State)
  unfolding resume_read refuse_read
  fakefd_operation_read none buf n s = some (fails ebadf, [], s)
  fakefd_operation_read (some o) buf n s = do
    p ← s.heap o.pipe
    elim (refuse_read o.kind buf n) [
      | some out ↦ some (out, [], s)
      | none ↦ do heap ← open_retain_locked o s.heap; resume_read o n (record s { heap = heap })
    ]

-- The descriptor's call: the description is held over the operation, and let go unless it waits.
unfoldable pub fakefd_write : ℤ → Option Bytes → ℕ → State → Option (Outcome × State)
unfolding fakefd_operation_write
fakefd_write fd buf n s = do
  (operation, held) ← fakefd_operation_acquire fd s
  elim operation [
    | none ↦ some (fails ebadf, held)
    | some o ↦ do
      (out, after) ← fakefd_operation_write (some o) buf n held
      elim out [
        | waits k ↦ some (waits k, after)
        | other ↦ do closed ← fakefd_operation_release (some o) after; some (other, closed)
      ]
  ]

module _ (random_get : ℕ → Bytes) where
  unfoldable pub fakefd_read : ℤ → Bool → ℕ → State → Option (Outcome × Bytes × State)
  fakefd_read fd buf n s = do
    (operation, held) ← fakefd_operation_acquire fd s
    elim operation [
      | none ↦ some (fails ebadf, [], held)
      | some o ↦ do
        (out, bytes, after) ← fakefd_operation_read random_get (some o) buf n held
        elim out [
          | waits k ↦ some (waits k, bytes, after)
          | other ↦ do closed ← fakefd_operation_release (some o) after; some (other, bytes, closed)
        ]
    ]
