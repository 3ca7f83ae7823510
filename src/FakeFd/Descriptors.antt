-- ===== src/FakeFd/Descriptors.antt =====
-- The calls of source/fakefd.c that make, copy and close descriptors. A call runs with the lock held
-- from its first read of the tables to its last write. `none` is a fault: a NULL or dangling pointer.
-- `flags` is the 32-bit pattern of the source's `int`. The result of an allocation is an argument.
use genshinimpact_nx.Base.{
  ℕ, ◌+◌, ◌-◌, ◌^◌, bit_and, Bool, true, false, not, ◌||◌, Option, none, some, List, [], ℤ, ◌==◌,
  if◌then◌else◌, set, replicate, ◌>>=◌,
}
use genshinimpact_nx.FakeFd.Model.{
  fake_fd_base, pipe_default_cap, ebadf, einval, efault, emfile, enomem, Kind, pipe_r, pipe_w,
  event, random, FakeOpen, Pipe, OpenRef, FakeFd, free_fd, free_alias, State, Outcome, returns,
  fails,
}
use genshinimpact_nx.FakeFd.Table.{
  update, open_retain_locked, open_release_locked, Place, high, alias, descriptor_locked,
  alloc_high_locked,
}

-- `BIONIC_O_NONBLOCK`, `BIONIC_O_CLOEXEC`
abbrev pub o_nonblock : ℕ
o_nonblock = 0x800

abbrev pub o_cloexec : ℕ
o_cloexec = 0x80000

-- `flags & mask`, and whether `flags & ~mask` is not zero.
abbrev pub has_flag : ℕ → ℕ → Bool
has_flag flags mask = not (bit_and flags mask == 0)

abbrev pub outside_mask : ℕ → ℕ → Bool
outside_mask flags mask = not (bit_and flags (2 ^ 32 - 1 - mask) == 0)

abbrev pub descriptor : ℕ → Kind → Bool → FakeFd
descriptor a k cloexec = record { ref = some (record { pipe = a; kind = k }); cloexec = cloexec }

abbrev pub unopened : FakeOpen
unopened = record { nonblock = false; refs = 0 }

abbrev pub opened : Bool → FakeOpen
opened nonblock = record { nonblock = nonblock; refs = 1 }

-- `calloc(1, sizeof(Pipe))`
abbrev pub zero_pipe : Pipe
zero_pipe = record {
  buf = [];
  head = 0;
  len = 0;
  capacity = 0;
  readers = 0;
  writers = 0;
  event_value = 0;
  event_semaphore = false;
  read_open = unopened;
  write_open = unopened;
  event_open = unopened;
  random_open = unopened;
}

-- `malloc` leaves the bytes of the buffer without a value; they are 0 here.
abbrev pub new_pipe : Bool → Pipe
new_pipe nonblock = record zero_pipe {
  buf = replicate pipe_default_cap 0;
  capacity = pipe_default_cap;
  readers = 1;
  writers = 1;
  read_open = opened nonblock;
  write_open = opened nonblock;
}

abbrev pub new_event : ℕ → Bool → Bool → Pipe
new_event initial_value semaphore nonblock = record zero_pipe {
  event_value = initial_value;
  event_semaphore = semaphore;
  event_open = opened nonblock;
}

abbrev pub new_random : Bool → Pipe
new_random nonblock = record zero_pipe { random_open = opened nonblock }

-- The mark `(FakeOpen *)1`, which keeps the first slot taken while the second is chosen.
abbrev pub taken_fd : FakeFd
taken_fd = descriptor 1 pipe_r false

abbrev pub two_slots : List FakeFd → Option (ℕ × ℕ)
two_slots fds = do
  r ← alloc_high_locked fds
  w ← alloc_high_locked (set fds r taken_fd)
  some (r, w)

-- A pipe object at the next address, and the table that refers to it.
abbrev pub install : State → Pipe → List FakeFd → State
install s p fds = record s { fds = fds; heap = update s.heap s.fresh (some p); fresh = s.fresh + 1 }

-- `fds` is whether the argument is not NULL, and `calloc_ok`, `malloc_ok` whether memory is given.
-- The two numbers are what is stored through it.
unfoldable pub fakefd_pipe2 : Bool → ℕ → Bool → Bool → State → Outcome × Option (ℕ × ℕ) × State
fakefd_pipe2 fds flags calloc_ok malloc_ok s =
    let nonblock = has_flag flags o_nonblock in
    let cloexec = has_flag flags o_cloexec in
    if not fds
    then (fails efault, none, s)
    else if outside_mask flags (o_nonblock + o_cloexec)
    then (fails einval, none, s)
    else if not calloc_ok || not malloc_ok
    then (fails enomem, none, s)
    else elim (two_slots s.fds) [
      | none ↦ (fails emfile, none, s)
      | some (r, w) ↦ (
        returns 0,
        some (fake_fd_base + r, fake_fd_base + w),
        install s (new_pipe nonblock) (
            set (set s.fds r (descriptor s.fresh pipe_r cloexec)) w
              (descriptor s.fresh pipe_w cloexec)),
      )
    ]

unfoldable pub fakefd_pipe : Bool → Bool → Bool → State → Outcome × Option (ℕ × ℕ) × State
unfolding fakefd_pipe2
fakefd_pipe fds = fakefd_pipe2 fds 0

-- The common end of `fakefd_eventfd` and `fakefd_random`.
abbrev pub place_single : State → Pipe → Kind → Bool → Outcome × State
place_single s p k cloexec = elim (alloc_high_locked s.fds) [
  | none ↦ (fails emfile, s)
  | some i ↦ (returns (fake_fd_base + i), install s p (set s.fds i (descriptor s.fresh k cloexec)))
]

unfoldable pub fakefd_eventfd : ℕ → ℕ → Bool → State → Outcome × State
fakefd_eventfd initial_value flags calloc_ok s =
    if outside_mask flags (1 + o_nonblock + o_cloexec)
    then (fails einval, s)
    else if not calloc_ok
    then (fails enomem, s)
    else place_single s (new_event initial_value (has_flag flags 1) (has_flag flags o_nonblock))
        event (has_flag flags o_cloexec)

unfoldable pub fakefd_random : ℕ → Bool → State → Outcome × State
fakefd_random flags calloc_ok s =
    if outside_mask flags (o_nonblock + o_cloexec)
    then (fails einval, s)
    else if not calloc_ok
    then (fails enomem, s)
    else place_single s (new_random (has_flag flags o_nonblock)) random (has_flag flags o_cloexec)

-- A slot takes the open description that `ref` points to, which gains a reference.
unfoldable pub share : Option OpenRef → ℕ → Bool → State → Option (Outcome × State)
share ref i cloexec s = do
  o ← ref
  heap ← open_retain_locked o s.heap
  some (
    returns (fake_fd_base + i),
    record s { fds = set s.fds i (record { ref = some o; cloexec = cloexec }); heap = heap },
  )

unfoldable pub fakefd_dup : ℤ → State → Option (Outcome × State)
unfolding share
fakefd_dup fd s = elim (descriptor_locked s fd) [
  | none ↦ some (fails ebadf, s)
  | some (place, d) ↦ elim (alloc_high_locked s.fds) [
    | none ↦ some (fails emfile, s)
    | some i ↦ share d.ref i false s
  ]
]

-- The entry of a place is cleared. The flag says whether a native reservation is to be closed.
abbrev pub clear_place : Place → State → Bool × State
clear_place (high i) s = (false, record s { fds = set s.fds i free_fd })
clear_place (alias i) s = (true, record s { aliases = set s.aliases i free_alias })

-- The flag is whether `close(fd)` of the native library follows.
unfoldable pub fakefd_close : ℤ → State → Option (Outcome × Bool × State)
fakefd_close fd s = elim (descriptor_locked s fd) [
  | none ↦ some (fails ebadf, false, s)
  | some (place, d) ↦ do
    o ← d.ref
    let cleared = clear_place place s
    heap ← open_release_locked o s.heap
    some (returns 0, cleared.0, record (cleared.1) { heap = heap })
]

-- A call in progress holds the open description that it works on.
unfoldable pub fakefd_operation_acquire : ℤ → State → Option (Option OpenRef × State)
fakefd_operation_acquire fd s = elim (descriptor_locked s fd) [
  | none ↦ some (none, s)
  | some (place, d) ↦ do
    o ← d.ref
    heap ← open_retain_locked o s.heap
    some (some o, record s { heap = heap })
]

unfoldable pub fakefd_operation_release : Option OpenRef → State → Option State
fakefd_operation_release none s = some s
fakefd_operation_release (some o) s = do
  heap ← open_release_locked o s.heap
  some (record s { heap = heap })
