-- ===== src/FakeFd/Control.antt =====
-- `fakefd_dup2`, `fakefd_fcntl`, `fakefd_ioctl` and `fakefd_poll_revents` of source/fakefd.c.
use genshinimpact_nx.Base.{
  ℕ, ◌+◌, ◌-◌, ◌^◌, bit_and, bit_or, Bool, true, false, not, ◌||◌, Option, none, some, ℤ, pos,
  negsuc, ltb, leb, ◌==◌, if◌then◌else◌, get_elem?, set, ◌>>=◌, same_int,
}
use genshinimpact_nx.FakeFd.Model.{
  fake_fd_base, pipe_max_cap, uint64_max, Errno, ebadf, einval, efault, emfile, enomem, eperm,
  ebusy, enotty, Kind, pipe_r, pipe_w, event, random, Pipe, OpenRef, free_alias, State, Outcome,
  returns, fails,
}
use genshinimpact_nx.FakeFd.Table.{
  update, get_open, put_open, open_retain_locked, open_release_locked, high_slot, Place, high,
  alias, descriptor_locked, free_from, reserve_alias_locked,
}
use genshinimpact_nx.FakeFd.Descriptors.{o_nonblock, has_flag, share}
use genshinimpact_nx.FakeFd.Ring.{round_capacity, move_buffer}

-- What the code around `fakefd_dup2` answers while the lock is not held: the native descriptor of
-- the reservation, or none, the `close_fake_backend` of libc_shim.c on the target with whether it
-- succeeded or found no such descriptor, the native `dup2`, and the `errno` of what failed.
pub record Natives : Type 0 where
  pub holder : Option ℤ
  pub close_fake_backend : ℤ → State → Bool × State
  pub dup2_ok : Bool
  pub saved : Errno

-- The reserved alias slot is cleared and the description released.
abbrev pub abandon : ℕ → OpenRef → Errno → State → Option (Outcome × State)
abandon i o e s = do
  heap ← open_release_locked o s.heap
  some (fails e, record s { aliases = set s.aliases i free_alias; heap = heap })

-- A target that is not negative, as a number.
abbrev pub int_value : ℤ → ℕ
int_value (pos n) = n
int_value (negsuc n) = 0

-- The reserved slot becomes the alias: `reserved->used = 1` and its descriptor.
abbrev pub commit : ℕ → OpenRef → ℤ → State → Outcome × State
commit i o target s = (
  returns (int_value target),
  record s {
    aliases =
        set s.aliases i
          (record { used = 1; fd = target; descriptor = record { ref = some o; cloexec = false } });
  },
)

-- `dup2` to a native number, from the reservation on.
unfoldable pub dup2_low : Natives → OpenRef → ℤ → ℕ → State → Option (Outcome × State)
dup2_low env o target i s = elim env.holder [
  | none ↦ abandon i o env.saved s
  | some holder ↦
      let closed = env.close_fake_backend target s in
      if same_int holder target
      then some (commit i o target s)
      else if not closed.0
      then abandon i o env.saved closed.1
      else if not env.dup2_ok
      then abandon i o env.saved closed.1
      else some (commit i o target closed.1)
]

-- `dup2` to a slot of the high table, whose old entry loses its reference.
unfoldable pub dup2_high : OpenRef → ℕ → State → Option (Outcome × State)
dup2_high o i s = do
  old ← get_elem? s.fds i
  heap ← elim old.ref [ none ↦ some s.heap | some r ↦ open_release_locked r s.heap ]
  some (
    returns (fake_fd_base + i),
    record s { fds = set s.fds i (record { ref = some o; cloexec = false }); heap = heap },
  )

abbrev pub is_negative : ℤ → Bool
is_negative (pos n) = false
is_negative (negsuc n) = true

abbrev pub at_least : ℕ → ℤ → Bool
at_least k (pos n) = leb k n
at_least k (negsuc n) = false

-- `target` once it is known not to be negative or equal to `fd`, and `o` has been retained.
unfoldable pub dup2_to : Natives → OpenRef → ℤ → State → Option (Outcome × State)
unfolding dup2_low dup2_high
dup2_to env o target s = elim (high_slot target) [
  | some i ↦ dup2_high o i s
  | none ↦
      if at_least 1024 target
      then (do heap ← open_release_locked o s.heap; some (fails ebadf, record s { heap = heap }))
      else elim (reserve_alias_locked s target) [
        | none ↦ do
          heap ← open_release_locked o s.heap
          some (fails emfile, record s { heap = heap })
        | some (i, reserved) ↦ dup2_low env o target i reserved
      ]
]

unfoldable pub fakefd_dup2 : Natives → ℤ → ℤ → State → Option (Outcome × State)
unfolding dup2_to
fakefd_dup2 env fd target s =
    if is_negative target then some (fails ebadf, s) else elim (descriptor_locked s fd) [
      | none ↦ some (fails ebadf, s)
      | some (place, d) ↦ if same_int fd target then some (returns (int_value target), s) else (do
        o ← d.ref
        heap ← open_retain_locked o s.heap
        dup2_to env o target (record s { heap = heap }))
    ]

-- The entry of a place with `cloexec` given anew.
abbrev pub set_cloexec : Place → Bool → State → State
set_cloexec (high i) b s = record s {
  fds = elim (get_elem? s.fds i) [ none ↦ s.fds | some d ↦ set s.fds i (record d { cloexec = b }) ];
}
set_cloexec (alias i) b s = record s {
  aliases = elim (get_elem? s.aliases i) [
    | none ↦ s.aliases
    | some a ↦ set s.aliases i (record a { descriptor = record (a.descriptor) { cloexec = b } })
  ];
}

abbrev pub set_nonblock : OpenRef → Pipe → Bool → State → State
set_nonblock o p b s = record s {
  heap =
      update s.heap o.pipe (some (put_open o.kind (record (get_open o.kind p) { nonblock = b }) p));
}

abbrev pub is_pipe : Kind → Bool
is_pipe pipe_r = true
is_pipe pipe_w = true
is_pipe _ = false

-- The access mode that `F_GETFL` reports.
abbrev pub access_mode : Kind → ℕ
access_mode event = 2
access_mode pipe_w = 1
access_mode _ = 0

-- `INT_MAX`, and the sign of the 64-bit pattern of an `intptr_t`.
abbrev pub int_max : ℕ
int_max = 2 ^ 31 - 1

abbrev pub negative64 : ℕ → Bool
negative64 a = leb (2 ^ 63) a

-- `F_DUPFD` and `F_DUPFD_CLOEXEC`
unfoldable pub dup_from : Option OpenRef → ℕ → Bool → State → Option (Outcome × State)
unfolding share
dup_from ref argument cloexec s =
    if negative64 argument || ltb int_max argument
    then some (fails einval, s)
    else elim (free_from s.fds (if leb argument fake_fd_base then 0 else argument - fake_fd_base)
        0) [ none ↦ some (fails emfile, s) | some i ↦ share ref i cloexec s ]

-- `F_SETPIPE_SZ`
unfoldable pub set_pipe_size : OpenRef → Pipe → ℕ → Bool → State → Outcome × State
set_pipe_size o p argument malloc_ok s =
    let capacity = round_capacity argument in
    if not (is_pipe o.kind)
    then (fails einval, s)
    else if negative64 argument || argument == 0
    then (fails einval, s)
    else if ltb pipe_max_cap argument
    then (fails eperm, s)
    else if ltb capacity p.len
    then (fails ebusy, s)
    else if capacity == p.capacity
    then (returns p.capacity, s)
    else if not malloc_ok
    then (fails enomem, s)
    else (
      returns capacity,
      record s { heap = update s.heap o.pipe (some (move_buffer p capacity)) },
    )

-- `command` and `argument` are the bit patterns of the `int` and the `intptr_t`.
unfoldable pub fakefd_fcntl : ℤ → ℕ → ℕ → Bool → State → Option (Outcome × State)
unfolding dup_from set_pipe_size
fakefd_fcntl fd command argument malloc_ok s = elim (descriptor_locked s fd) [
  | none ↦ some (fails ebadf, s)
  | some (place, d) ↦
      if command == 0 || command == 1030
      then dup_from d.ref argument (command == 1030) s
      else if command == 1
      then some (returns (if d.cloexec then 1 else 0), s)
      else if command == 2
      then some (returns 0, set_cloexec place (not (bit_and argument 1 == 0)) s)
      else if not (command == 3 || command == 4 || command == 1031 || command == 1032)
      then some (fails einval, s)
      else (do
        o ← d.ref
        p ← s.heap o.pipe
        some (
            if command == 3
            then (
              returns (
                  bit_or (access_mode o.kind)
                    (if (get_open o.kind p).nonblock then o_nonblock else 0)),
              s,
            )
            else if command == 4
            then (returns 0, set_nonblock o p (has_flag argument o_nonblock) s)
            else if command == 1031
            then set_pipe_size o p argument malloc_ok s
            else if is_pipe o.kind
            then (returns p.capacity, s)
            else (fails einval, s)))
]

-- What `FIONREAD` counts.
abbrev pub readable : Kind → Pipe → ℕ
readable event p = if p.event_value == 0 then 0 else 8
readable random p = int_max
readable _ p = p.len

-- `argument` is the `int` behind the pointer, or none for NULL; the number is what is stored there.
unfoldable pub fakefd_ioctl : ℤ → ℕ → Option ℕ → State → Option (Outcome × Option ℕ × State)
fakefd_ioctl fd request none s = some (fails efault, none, s)
fakefd_ioctl fd request (some value) s = elim (descriptor_locked s fd) [
  | none ↦ some (fails ebadf, none, s)
  | some (place, d) ↦ do
    o ← d.ref
    p ← s.heap o.pipe
    some (
        if request == 0x5421
        then (returns 0, none, set_nonblock o p (not (value == 0)) s)
        else if request == 0x541b
        then (
          returns 0,
          some (if ltb int_max (readable o.kind p) then int_max else readable o.kind p),
          s,
        )
        else (fails enotty, none, s))
]

-- The masks of the native <poll.h>.
pub record PollMasks : Type 0 where
  pub pollin : ℕ
  pub pollout : ℕ
  pub pollerr : ℕ
  pub pollhup : ℕ
  pub pollnval : ℕ

-- `ready |= mask` under a condition. `pollin` stands for POLLIN | POLLRDNORM, and `pollout` for
-- POLLOUT | POLLWRNORM | POLLWRBAND.
abbrev pub when : Bool → ℕ → ℕ
when b mask = if b then mask else 0

abbrev pub ready_bits : PollMasks → Kind → Pipe → ℕ → ℕ
ready_bits m event p events =
    bit_or (when (not (p.event_value == 0)) (bit_and events m.pollin))
      (when (ltb p.event_value (uint64_max - 1)) (bit_and events m.pollout))
ready_bits m random p events = bit_and events m.pollin
ready_bits m pipe_r p events =
    bit_or (when (not (p.len == 0)) (bit_and events m.pollin)) (when (p.writers == 0) m.pollhup)
ready_bits m pipe_w p events =
    if p.readers == 0 then m.pollerr else when (ltb p.len p.capacity) (bit_and events m.pollout)

unfoldable pub fakefd_poll_revents : PollMasks → ℤ → ℕ → State → Option ℕ
fakefd_poll_revents m fd events s = elim (descriptor_locked s fd) [
  | none ↦ some m.pollnval
  | some (place, d) ↦ do o ← d.ref; p ← s.heap o.pipe; some (ready_bits m o.kind p events)
]
