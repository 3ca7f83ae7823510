-- ===== src/FakeFd/Table.antt =====
-- The descriptor table, the aliases and the reference counts of source/fakefd.c. `none` stands for
-- a NULL or dangling pointer that the code would follow. Waking the waiters changes no state here.
use genshinimpact_nx.Base.{
  ℕ, suc, ◌+◌, ◌-◌, ◌%◌, ◌^◌, Bool, true, false, ◌&&◌, Option, none, some, List, [], ◌∷◌, ℤ, pos,
  negsuc, ltb, leb, ◌==◌, if◌then◌else◌, get_elem?, set, ◌>>=◌, same_int,
}
use genshinimpact_nx.FakeFd.Model.{
  fake_fd_base, max_fake_fds, fake_fd_select_base, Kind, pipe_r, pipe_w, event, random, FakeOpen,
  Pipe, OpenRef, FakeFd, FakeAlias, free_fd, State,
}

abbrev pub Heap : Type 0
Heap = ℕ → Option Pipe

abbrev pub update : Heap → ℕ → Option Pipe → Heap
update h a p b = if a == b then p else h b

-- The member of a pipe object that a `FakeOpen *` points to.
abbrev pub get_open : Kind → Pipe → FakeOpen
get_open pipe_r p = p.read_open
get_open pipe_w p = p.write_open
get_open event p = p.event_open
get_open random p = p.random_open

abbrev pub put_open : Kind → FakeOpen → Pipe → Pipe
put_open pipe_r o p = record p { read_open = o }
put_open pipe_w o p = record p { write_open = o }
put_open event o p = record p { event_open = o }
put_open random o p = record p { random_open = o }

-- `open->refs++` and `--open->refs` on `unsigned`.
abbrev pub bump : ℕ → Kind → Pipe → Pipe
bump by k p = put_open k (record (get_open k p) { refs = ((get_open k p).refs + by) % 2 ^ 32 }) p

unfoldable pub open_retain_locked : OpenRef → Heap → Option Heap
open_retain_locked o h = do p ← h o.pipe; some (update h o.pipe (some (bump 1 o.kind p)))

-- The last reference to a read end takes the readers away, any other the writers.
abbrev pub hang_up : Kind → Pipe → Pipe
hang_up pipe_r p = record p { readers = 0 }
hang_up _ p = record p { writers = 0 }

-- The pipe object once its last reference of one kind is gone, or nothing when it is freed.
abbrev pub shut : Kind → Pipe → Option Pipe
shut k p = let q = hang_up k p in if q.readers == 0 && q.writers == 0 then none else some q

unfoldable pub open_release_locked : OpenRef → Heap → Option Heap
open_release_locked o h = do
  p ← h o.pipe
  let q = bump (2 ^ 32 - 1) o.kind p
  some (update h o.pipe (if (get_open o.kind q).refs == 0 then shut o.kind q else some q))

-- The slot of a descriptor number in the high table.
abbrev pub high_slot : ℤ → Option ℕ
high_slot (pos n) =
    if leb fake_fd_base n && ltb n (fake_fd_base + max_fake_fds)
    then some (n - fake_fd_base)
    else none
high_slot (negsuc n) = none

-- The first alias in use for a number.
unfoldable pub alias_locked : List FakeAlias → ℤ → Option ℕ
alias_locked [] fd = none
alias_locked (a ∷ rest) fd =
    if a.used == 1 && same_int a.fd fd
    then some 0
    else elim (alias_locked rest fd) [ none ↦ none | some i ↦ some (suc i) ]

-- Where a descriptor stands.
pub data Place : Type 0 where
  high : ℕ → Place
  alias : ℕ → Place

-- The place of a live descriptor, with what stands there.
unfoldable pub descriptor_locked : State → ℤ → Option (Place × FakeFd)
unfolding alias_locked
descriptor_locked s fd = elim (high_slot fd) [
  | some i ↦ do d ← get_elem? s.fds i; elim d.ref [ none ↦ none | some o ↦ some (high i, d) ]
  | none ↦ do i ← alias_locked s.aliases fd; a ← get_elem? s.aliases i; some (alias i, a.descriptor)
]

-- The first free slot from `i` on in what is left of the table.
unfoldable pub free_from : List FakeFd → ℕ → ℕ → Option ℕ
free_from [] first i = none
free_from (d ∷ rest) first i =
    let later = free_from rest first (i + 1) in
    if leb first i then (elim d.ref [ none ↦ some i | some o ↦ later ]) else later

unfoldable pub alloc_high_locked : List FakeFd → Option ℕ
unfolding free_from
alloc_high_locked fds = free_from fds 0 0

-- The first unused alias slot.
unfoldable pub unused_alias : List FakeAlias → Option ℕ
unused_alias [] = none
unused_alias (a ∷ rest) =
    if a.used == 0 then some 0 else elim (unused_alias rest) [ none ↦ none | some i ↦ some (suc i) ]

abbrev pub reservation : ℤ → FakeAlias
reservation fd = record { used = 2; fd = fd; descriptor = free_fd }

unfoldable pub reserve_alias_locked : State → ℤ → Option (ℕ × State)
unfolding unused_alias
reserve_alias_locked s fd = do
  i ← unused_alias s.aliases
  some (i, record s { aliases = set s.aliases i (reservation fd) })

unfoldable pub fakefd_is_fake : State → ℤ → Bool
fakefd_is_fake s fd = elim (high_slot fd) [
  | some i ↦ true
  | none ↦ elim (alias_locked s.aliases fd) [ none ↦ false | some i ↦ true ]
]

unfoldable pub fakefd_is_live : State → ℤ → Bool
fakefd_is_live s fd = elim (descriptor_locked s fd) [ none ↦ false | some d ↦ true ]

-- The bit that stands for a descriptor in a set of `select`, and back.
unfoldable pub fakefd_select_bit : ℤ → ℤ
fakefd_select_bit fd = elim (high_slot fd) [ none ↦ fd | some i ↦ pos (fake_fd_select_base + i) ]

abbrev pub select_slot : ℤ → ℤ
select_slot (pos n) =
    if leb fake_fd_select_base n && ltb n 1024
    then pos (fake_fd_base + n - fake_fd_select_base)
    else negsuc 0
select_slot (negsuc n) = negsuc 0

unfoldable pub fakefd_from_select_bit : State → ℤ → ℤ
fakefd_from_select_bit s bit = elim (alias_locked s.aliases bit) [
  | some i ↦ bit
  | none ↦ select_slot bit
]
