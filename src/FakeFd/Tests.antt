-- ===== src/FakeFd/Tests.antt =====
-- Runs of source/fakefd.c on small tables, and the theorems at inputs that meet their hypotheses.
use genshinimpact_nx.Base.{
  ◌%◌, ℕ, zero, suc, ◌+◌, ◌≤◌, ◌<◌, ◌≡◌, refl, ◌⊎◌, true, false, none, some, [], ◌∷◌, ◌++◌, arith,
  ℤ, pos, ltb, if◌then◌else◌, length, replicate, length-replicate, ◌>>=◌,
}
use genshinimpact_nx.FakeFd.Model.{
  fake_fd_base, max_fake_aliases, uint64_max, ebadf, eagain, epipe, pipe_r, pipe_w, Pipe, OpenRef,
  free_alias, State, initial, Outcome, returns, fails,
}
use genshinimpact_nx.FakeFd.Table.{bump, open_retain_locked, open_release_locked, descriptor_locked}
use genshinimpact_nx.FakeFd.Descriptors.{
  new_pipe, new_event, fakefd_pipe2, fakefd_eventfd, fakefd_dup, fakefd_close,
  fakefd_operation_acquire,
}
use genshinimpact_nx.FakeFd.Control.{Natives, fakefd_dup2, set_pipe_size, fakefd_fcntl}
use genshinimpact_nx.FakeFd.Counts.{AllAliases, Sound}
use genshinimpact_nx.FakeFd.Safety.{Safe, dup-Safe, Started, acquire-Started, Closed, close-Closed}
use genshinimpact_nx.FakeFd.Transfers.{
  of_bytes, add_event, fakefd_operation_write, take_event, fakefd_operation_read,
}
use genshinimpact_nx.FakeFd.Ring.{must_wait, write_loop}
use genshinimpact_nx.FakeFd.Window.{contents}
use genshinimpact_nx.FakeFd.Chunks.{IsRing}
use genshinimpact_nx.FakeFd.Writes.{send, write_loop_lem, view}
use genshinimpact_nx.FakeFd.PipeWrites.{holding}
use genshinimpact_nx.FakeFd.WriteCall.{pipe_view, sent, operation_write_lem}
use genshinimpact_nx.FakeFd.Creation.{eventfd-Sound, pipe2-Sound}
use genshinimpact_nx.FakeFd.ReadCall.{received, operation_read_lem}
use genshinimpact_nx.FakeFd.Guarantees.{write_atomic, event_write, event_read, TookNothing, Ends}
use genshinimpact_nx.FakeFd.Dup2.{IsBackend, dup2-Safe}
use genshinimpact_nx.FakeFd.Ring.{round_capacity}
use genshinimpact_nx.FakeFd.Resize.{set_pipe_size_lem, fcntl-Safe}
use genshinimpact_nx.FakeFd.Table.{alloc_high_locked}

free_aliases : (n : ℕ) → AllAliases (replicate n free_alias)
free_aliases zero = tt
free_aliases (suc n) = (((λ h. absurd (omega arith)), (λ h. refl)), free_aliases n)

initial-Sound : Sound initial []
initial-Sound = record {
  fds_length = refl;
  aliases_length = refl;
  calls_bound = omega arith;
  counted = λ o. refl;
  objects = λ a. tt;
  unused = λ a h. refl;
  aliased = free_aliases max_fake_aliases;
}

-- A pipe at slots 0 and 1.
abbrev piped : State
unfolding fakefd_pipe2 alloc_high_locked
piped = (fakefd_pipe2 true 0 true true initial).2

abbrev write_end : OpenRef
write_end = record { pipe = 0; kind = pipe_w }

abbrev read_end : OpenRef
read_end = record { pipe = 0; kind = pipe_r }

piped_ends :
    ((fakefd_pipe2 true 0 true true initial).0 ≡ returns 0)
    × ((fakefd_pipe2 true 0 true true initial).1 ≡ some (fake_fd_base, fake_fd_base + 1))
unfolding fakefd_pipe2 alloc_high_locked
piped_ends = (refl, refl)

piped-Sound : Sound piped []
unfolding fakefd_pipe2 alloc_high_locked
piped-Sound = pipe2-Sound initial [] initial-Sound true 0 true true

-- The same with a call in progress on each end.
abbrev writing : State
unfolding fakefd_pipe2 alloc_high_locked fakefd_operation_acquire descriptor_locked
    open_retain_locked
writing = elim (fakefd_operation_acquire (pos (fake_fd_base + 1)) piped) [
  | none ↦ piped
  | some (o, t) ↦ t
]

writing-Sound : Sound writing (write_end ∷ [])
unfolding fakefd_pipe2 alloc_high_locked fakefd_operation_acquire descriptor_locked
    open_retain_locked
writing-Sound = acquire-Started piped [] piped-Sound (omega arith) (pos (fake_fd_base + 1))

abbrev reading : State
unfolding fakefd_pipe2 alloc_high_locked fakefd_operation_acquire descriptor_locked
    open_retain_locked
reading = elim (fakefd_operation_acquire (pos fake_fd_base) piped) [
  | none ↦ piped
  | some (o, t) ↦ t
]

reading-Sound : Sound reading (read_end ∷ [])
unfolding fakefd_pipe2 alloc_high_locked fakefd_operation_acquire descriptor_locked
    open_retain_locked
reading-Sound = acquire-Started piped [] piped-Sound (omega arith) (pos fake_fd_base)

abbrev held_pipe : Pipe
held_pipe = bump 1 pipe_w (new_pipe false)

abbrev read_pipe : Pipe
read_pipe = bump 1 pipe_r (new_pipe false)

operation_write_example :
    (t : State) × (fakefd_operation_write (some write_end) (some (7 ∷ 8 ∷ [])) 2 writing
      ≡ some ((sent held_pipe (7 ∷ 8 ∷ [])).0, t))
    × (pipe_view t 0 ≡ some (sent held_pipe (7 ∷ 8 ∷ [])).1)
    × Sound t (holding (sent held_pipe (7 ∷ 8 ∷ [])).0 write_end (write_end ∷ []))
unfolding fakefd_pipe2 alloc_high_locked fakefd_operation_acquire descriptor_locked
    open_retain_locked
operation_write_example =
    operation_write_lem writing [] write_end held_pipe (7 ∷ 8 ∷ []) writing-Sound (omega arith) refl
      refl (omega arith)

operation_read_example :
    (t : State) × (fakefd_operation_read (λ n. []) (some read_end) true 5 reading
      ≡ some ((received read_pipe 5).0, (received read_pipe 5).1, t))
    × (pipe_view t 0 ≡ some (received read_pipe 5).2)
    × Sound t (holding (received read_pipe 5).0 read_end (read_end ∷ []))
unfolding fakefd_pipe2 alloc_high_locked fakefd_operation_acquire descriptor_locked
    open_retain_locked
operation_read_example =
    operation_read_lem (λ n. []) reading [] read_end read_pipe 5 reading-Sound (omega arith) refl
      refl (omega arith)

write_atomic_example :
    let r = fakefd_operation_write (some write_end) (some (7 ∷ 8 ∷ [])) 2 writing in
    Ends r 0 (returns 2) (contents held_pipe ++ (7 ∷ 8 ∷ []))
    ⊎ ((out : Outcome) × TookNothing out × Ends r 0 out (contents held_pipe))
unfolding fakefd_pipe2 alloc_high_locked fakefd_operation_acquire descriptor_locked
    open_retain_locked
write_atomic_example =
    write_atomic writing [] write_end held_pipe (7 ∷ 8 ∷ []) writing-Sound (omega arith) refl refl
      (omega arith) (omega arith)

pipe2-Sound_example : Sound (fakefd_pipe2 true 0x800 true true piped).2 []
pipe2-Sound_example = pipe2-Sound piped [] piped-Sound true 0x800 true true

eventfd-Sound_example : Sound (fakefd_eventfd 3 1 true piped).1 []
eventfd-Sound_example = eventfd-Sound piped [] piped-Sound 3 1 true (omega arith)

dup-Safe_example : Safe [] (fakefd_dup (pos fake_fd_base) piped)
dup-Safe_example = dup-Safe piped [] piped-Sound (omega arith) (pos fake_fd_base)

acquire-Started_example :
    Started piped [] piped-Sound (omega arith) (fakefd_operation_acquire (pos fake_fd_base) piped)
acquire-Started_example = acquire-Started piped [] piped-Sound (omega arith) (pos fake_fd_base)

close-Closed_example : Closed (write_end ∷ []) (fakefd_close (pos fake_fd_base) writing)
close-Closed_example =
    close-Closed writing (write_end ∷ []) (pos fake_fd_base) writing-Sound (omega arith)

fcntl-Safe_example : Safe [] (fakefd_fcntl (pos fake_fd_base) 1031 5000 true piped)
fcntl-Safe_example = fcntl-Safe piped [] piped-Sound (pos fake_fd_base) 1031 5000 true (omega arith)

set_pipe_size_example :
    let r = set_pipe_size read_end (new_pipe false) 5000 true piped in
    (r.0 ≡ returns (round_capacity 5000))
    × (5000 ≤ round_capacity 5000)
    × (round_capacity 5000 < 5000 + 4096)
    × (round_capacity 5000 % 4096 ≡ 0)
    × ((q : Pipe) × (r.1.heap 0 ≡ some q)
        × (q.capacity ≡ round_capacity 5000)
        × (contents q ≡ contents (new_pipe false)))
unfolding fakefd_pipe2 alloc_high_locked
set_pipe_size_example =
    set_pipe_size_lem piped read_end (new_pipe false) 5000 refl refl (omega arith) (omega arith)
      (omega arith)

event_write_example : add_event true 5 (new_event 2 false true) ≡ (
    if ltb (2 + 5) uint64_max
    then (returns 8, record (new_event 2 false true) { event_value = 2 + 5 })
    else (fails eagain, new_event 2 false true))
event_write_example = event_write true 5 (new_event 2 false true) (omega arith) (omega arith)

event_read_example :
    let r = take_event true (new_event 2 false true) in
    (r.0 ≡ returns 8) × (length r.1 ≡ 8) × (of_bytes r.1 + r.2.event_value ≡ 2) × (of_bytes r.1 ≡ 2)
event_read_example = event_read true (new_event 2 false true) (omega arith) (omega arith)

-- No other call owns the target: nothing is closed.
abbrev quiet : Natives
quiet = record {
  holder = some (pos 9);
  close_fake_backend = λ target s. (true, s);
  dup2_ok = true;
  saved = ebadf;
}

quiet-IsBackend : (target : ℤ) → IsBackend (quiet.close_fake_backend target)
quiet-IsBackend target = record { balanced = λ t calls v. v; reserved = λ t i n h. h }

dup2-Safe_example : Safe [] (fakefd_dup2 quiet (pos (fake_fd_base + 1)) (pos 7) piped)
dup2-Safe_example =
    dup2-Safe quiet (pos (fake_fd_base + 1)) (pos 7) piped [] (quiet-IsBackend (pos 7)) piped-Sound
      (omega arith)

write_loop_example :
    view (write_loop 2 true 3 (new_pipe true) (7 ∷ 8 ∷ 9 ∷ []) 0)
    ≡ some (send true true 4096 (contents (new_pipe true)) 3 (7 ∷ 8 ∷ 9 ∷ []) 0)
write_loop_example = write_loop_lem true (new_pipe true) 3 (7 ∷ 8 ∷ 9 ∷ []) 0 fresh_ring 0 refl
  where
    fresh_ring : IsRing (new_pipe true)
    fresh_ring = record {
      storage = length-replicate {A = ℕ} 4096 0;
      page = omega arith;
      small = omega arith;
      head_in = omega arith;
      len_in = omega arith;
    }

-- A pipe end closed while a call works on it stays until the call ends.
closed_while_writing :
    elim (fakefd_close (pos fake_fd_base) writing) [
      | none ↦ none
      | some (out, native, t) ↦
          fakefd_operation_write (some write_end) (some (7 ∷ [])) 1 t >>= λ r. some (r.0)
    ]
    ≡ some (fails epipe)
unfolding fakefd_pipe2 alloc_high_locked fakefd_operation_acquire descriptor_locked
    open_retain_locked fakefd_close open_release_locked fakefd_operation_write write_loop must_wait
closed_while_writing = refl
