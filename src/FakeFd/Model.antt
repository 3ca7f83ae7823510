-- ===== src/FakeFd/Model.antt =====
-- The data of source/fakefd.c: open file descriptions, the pipe object that holds them, the
-- descriptor table and the low aliases. A `FakeOpen *` is a pipe's address with the member that
-- it points to, so the fields `pipe` and `kind` of the source are the two parts of an `OpenRef`.
use genshinimpact_nx.Base.{
  ℕ, ◌-◌, ◌*◌, ◌^◌, ℤ, pos, Bool, true, false, ◌&&◌, Option, none, List, Bytes, ◌==◌, replicate,
}

abbrev pub fake_fd_base : ℕ
fake_fd_base = 0x4000_0000

abbrev pub max_fake_fds : ℕ
max_fake_fds = 32

abbrev pub max_fake_aliases : ℕ
max_fake_aliases = 32

abbrev pub pipe_atomic_cap : ℕ
pipe_atomic_cap = 4096

abbrev pub pipe_default_cap : ℕ
pipe_default_cap = 4096

abbrev pub pipe_max_cap : ℕ
pipe_max_cap = 1024 * 1024

abbrev pub fake_fd_select_base : ℕ
fake_fd_select_base = 1024 - max_fake_fds

-- `UINT64_MAX`
abbrev pub uint64_max : ℕ
uint64_max = 2 ^ 64 - 1

pub data Errno : Type 0 where
  ebadf einval efault eagain epipe emfile enomem eperm ebusy enotty : Errno

-- `FD_PIPE_R`, `FD_PIPE_W`, `FD_EVENT`, `FD_RANDOM`
pub data Kind : Type 0 where
  pipe_r pipe_w event random : Kind

abbrev pub same_kind : Kind → Kind → Bool
same_kind pipe_r pipe_r = true
same_kind pipe_w pipe_w = true
same_kind event event = true
same_kind random random = true
same_kind _ _ = false

-- The mutable part of a `FakeOpen`.
pub record FakeOpen : Type 0 where
  pub nonblock : Bool
  pub refs : ℕ

pub record Pipe : Type 0 where
  pub buf : Bytes
  pub head : ℕ
  pub len : ℕ
  pub capacity : ℕ
  pub readers : ℕ
  pub writers : ℕ
  pub event_value : ℕ
  pub event_semaphore : Bool
  pub read_open : FakeOpen
  pub write_open : FakeOpen
  pub event_open : FakeOpen
  pub random_open : FakeOpen

pub record OpenRef : Type 0 where
  pub pipe : ℕ
  pub kind : Kind

abbrev pub same_open : OpenRef → OpenRef → Bool
same_open a b = a.pipe == b.pipe && same_kind a.kind b.kind

-- `open` is NULL in a free slot.
pub record FakeFd : Type 0 where
  pub ref : Option OpenRef
  pub cloexec : Bool

-- `used` is 0 for a free slot, 1 for an alias and 2 for a reservation of `fakefd_dup2`.
pub record FakeAlias : Type 0 where
  pub used : ℕ
  pub fd : ℤ
  pub descriptor : FakeFd

abbrev pub free_fd : FakeFd
free_fd = record { ref = none; cloexec = false }

abbrev pub free_alias : FakeAlias
free_alias = record { used = 0; fd = pos 0; descriptor = free_fd }

-- What `g_lock` protects, and the heap of pipe objects. `fresh` is the next address that the
-- allocator hands out.
pub record State : Type 0 where
  pub fds : List FakeFd
  pub aliases : List FakeAlias
  pub heap : ℕ → Option Pipe
  pub fresh : ℕ

abbrev pub initial : State
initial = record {
  fds = replicate max_fake_fds free_fd;
  aliases = replicate max_fake_aliases free_alias;
  heap = λ _. none;
  fresh = 0;
}

-- What a call does: it returns a number that is not negative, returns -1 with `errno`, or waits on
-- the condition variable with so many bytes already moved.
pub data Outcome : Type 0 where
  returns : ℕ → Outcome
  fails : Errno → Outcome
  waits : ℕ → Outcome
