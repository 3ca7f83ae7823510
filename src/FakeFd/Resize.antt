-- ===== src/FakeFd/Resize.antt =====
-- `fakefd_fcntl` and `fakefd_ioctl` keep the books balanced, and a resized pipe keeps its bytes.
use genshinimpact_nx.Base.{
  ◌%◌, ℕ, ◌+◌, ◌-◌, ◌≤◌, ◌<◌, bit_and, ◌≡◌, refl, sym, ap, inl, inr, Bool, true, false, not, ◌||◌,
  some, List, arith, ℤ, leb, ◌==◌, if◌then◌else◌, ==_iff, Bool-cases, Option-cases,
}
use mathlib.Core.Path.{subst}
use genshinimpact_nx.FakeFd.Model.{
  fake_fd_base, pipe_atomic_cap, pipe_max_cap, Kind, pipe_r, pipe_w, event, random, FakeOpen, Pipe,
  OpenRef, FakeFd, State, returns,
}
use genshinimpact_nx.FakeFd.Table.{
  update, get_open, put_open, Place, high, alias, descriptor_locked, free_from,
}
use genshinimpact_nx.FakeFd.Descriptors.{o_nonblock, has_flag}
use genshinimpact_nx.FakeFd.Control.{
  set_cloexec, set_nonblock, is_pipe, negative64, dup_from, set_pipe_size, fakefd_fcntl,
}
use genshinimpact_nx.FakeFd.Counts.{refs_of, IsPipe, Sound}
use genshinimpact_nx.FakeFd.References.{live_object, set_fd_lem, set_alias_lem, modify_lem}
use genshinimpact_nx.FakeFd.Lookup.{AllAliases-get, free_slot, Stands, descriptor_locked_lem}
use genshinimpact_nx.FakeFd.Safety.{Safe, HasRoom, share-Safe}
use genshinimpact_nx.FakeFd.Chunks.{round_capacity_lem, move_buffer_lem}
use genshinimpact_nx.FakeFd.Ring.{round_capacity, move_buffer}
use genshinimpact_nx.FakeFd.Window.{contents}
use genshinimpact_nx.FakeFd.Frames.{SameEnds, IsPipe-same}

-- The nonblocking flag is no part of what is counted.
set_nonblock-Sound :
    (s : State) (calls : List OpenRef) (o : OpenRef) (p : Pipe) (b : Bool)
    → Sound s calls
    → 0 < refs_of s.heap o
    → s.heap o.pipe ≡ some p
    → Sound (set_nonblock o p b s) calls
set_nonblock-Sound s calls o p b v live there =
    modify_lem s calls o p (put_open o.kind (record (get_open o.kind p) { nonblock = b }) p) v live
      there (nonblock-IsPipe o.kind p b (rw there at (v.objects o.pipe))) (nonblock-refs o.kind p b)
  where
    nonblock-refs :
        (k : Kind) (p : Pipe) (b : Bool) (j : Kind)
        → (get_open j (put_open k (record (get_open k p) { nonblock = b }) p)).refs
          ≡ (get_open j p).refs
    nonblock-refs pipe_r p b j = ground arith
    nonblock-refs k p b j = ground arith

    nonblock-IsPipe :
        (k : Kind) (p : Pipe) (b : Bool)
        → IsPipe p
        → IsPipe (put_open k (record (get_open k p) { nonblock = b }) p)
    nonblock-IsPipe pipe_r p b w = ground arith
    nonblock-IsPipe k p b w = ground arith

set_cloexec-Sound :
    (s : State) (calls : List OpenRef) (place : Place) (d : FakeFd) (b : Bool)
    → Sound s calls
    → Stands s place d
    → Sound (set_cloexec place b s) calls
set_cloexec-Sound s calls (high i) d b v there =
    rw (there, set_cloexec)
      (set_fd_lem s calls calls i d (record d { cloexec = b }) v there (λ q. refl) v.calls_bound)
set_cloexec-Sound s calls (alias i) d b v (a, there, its, used) =
    rw (there, set_cloexec)
      (set_alias_lem s calls calls i a
        (record a { descriptor = record (a.descriptor) { cloexec = b } }) v there
        (AllAliases-get s.aliases i a v.aliased there) (λ q. refl) v.calls_bound)

move_buffer-SameEnds : (p : Pipe) (c : ℕ) → SameEnds p (move_buffer p c)
unfolding move_buffer
move_buffer-SameEnds p c = record {
  readers_same = refl;
  writers_same = refl;
  opens_same = elim [ pipe_r ↦ refl | pipe_w ↦ refl | event ↦ refl | random ↦ refl ];
  event_same = refl;
}

move_buffer-capacity : (p : Pipe) (c : ℕ) → (move_buffer p c).capacity ≡ c
unfolding move_buffer
move_buffer-capacity p c = refl

module _ (s : State) (calls : List OpenRef) (v : Sound s calls) (o : OpenRef) (p : Pipe)
    (live : 0 < refs_of s.heap o) (there : s.heap o.pipe ≡ some p) (argument : ℕ)
    (malloc_ok : Bool) where
  moved :
      0 < argument
      → argument ≤ pipe_max_cap
      → p.len ≤ round_capacity argument
      → Sound
          (record s {
            heap = update s.heap o.pipe (some (move_buffer p (round_capacity argument)));
          })
          calls
  moved some_size small fits =
      let (above, below, page, least, most) = round_capacity_lem argument some_size small in
      let same = move_buffer-SameEnds p (round_capacity argument) in
      modify_lem s calls o p (move_buffer p (round_capacity argument)) v live there
        (IsPipe-same p (move_buffer p (round_capacity argument)) (rw there at (v.objects o.pipe))
          same (λ r. (move_buffer_lem p (round_capacity argument) fits least most).1))
        (λ k. ap (λ (f : FakeOpen). f.refs) (same.opens_same k))

  pub set_pipe_size-Sound : Sound (set_pipe_size o p argument malloc_ok s).1 calls
  unfolding set_pipe_size
  set_pipe_size-Sound = ground (arith, v, moved)

-- When the bytes in the pipe fit and the allocation succeeds, F_SETPIPE_SZ gives a pipe the least
-- whole number of pages that holds the size asked for, and keeps its bytes in order.
pub set_pipe_size_lem :
    (s : State) (o : OpenRef) (p : Pipe) (argument : ℕ)
    → is_pipe o.kind ≡ true
    → s.heap o.pipe ≡ some p
    → 0 < argument
    → argument ≤ pipe_max_cap
    → p.len ≤ round_capacity argument
    → let r = set_pipe_size o p argument true s in
      (r.0 ≡ returns (round_capacity argument))
      × (argument ≤ round_capacity argument)
      × (round_capacity argument < argument + pipe_atomic_cap)
      × (round_capacity argument % pipe_atomic_cap ≡ 0)
      × ((q : Pipe) × (r.1.heap o.pipe ≡ some q)
          × (q.capacity ≡ round_capacity argument)
          × (contents q ≡ contents p))
unfolding set_pipe_size
set_pipe_size_lem s o p argument kind there some_size small fits =
    let (above, below, page, least, most) = round_capacity_lem argument some_size small in
    let kept = (move_buffer_lem p (round_capacity argument) fits least most).0 in
    let here : (o.pipe == o.pipe) ≡ true = (==_iff o.pipe o.pipe).1 refl in
    let checks : (negative64 argument || argument == 0) ≡ false = ground arith in
    elim (Bool-cases (round_capacity argument == p.capacity)) [
      | inl e ↦ (
        ground (arith, kind, checks),
        above,
        below,
        page,
        (p, ground (arith, kind, checks, there), ground arith, refl),
      )
      | inr e ↦ (
        ground (arith, kind, checks),
        above,
        below,
        page,
        (
          move_buffer p (round_capacity argument),
          ground (arith, kind, checks, here),
          move_buffer-capacity p (round_capacity argument),
          kept,
        ),
      )
    ]

module _ (s : State) (calls : List OpenRef) (v : Sound s calls) where
  dup_from-Safe :
      (o : OpenRef) (argument : ℕ) (cloexec : Bool)
      → HasRoom calls
      → 0 < refs_of s.heap o
      → Safe calls (dup_from (some o) argument cloexec s)
  unfolding dup_from
  dup_from-Safe o argument cloexec room live =
      let first = if leb argument fake_fd_base then 0 else argument - fake_fd_base in
      elim (Option-cases (free_from s.fds first 0)) [
        | inl e ↦ rw (e, dup_from) (ground (arith, v))
        | inr (i, e) ↦
            let (low, within, d, there, empty) = free_slot s.fds first i e in
            rw (e, dup_from)
              (ground (arith, v, share-Safe s calls v room o i cloexec d live there empty))
      ]

  -- `fakefd_fcntl` follows only live pointers and keeps the books balanced, whatever the command.
  pub fcntl-Safe :
      (fd : ℤ) (command argument : ℕ) (malloc_ok : Bool)
      → HasRoom calls
      → Safe calls (fakefd_fcntl fd command argument malloc_ok s)
  unfolding fakefd_fcntl
  fcntl-Safe fd command argument malloc_ok room = elim (Option-cases (descriptor_locked s fd)) [
    | inl e ↦ rw (e, fakefd_fcntl) v
    | inr ((place, d), e) ↦
        let f = descriptor_locked_lem s calls fd place d v e in
        let (p, there, w) = live_object v f.target f.live in
        let dup : Safe calls (dup_from d.ref argument (command == 1030) s) =
          subst (λ r. Safe calls (dup_from r argument (command == 1030) s)) (sym f.points)
            (dup_from-Safe f.target argument (command == 1030) room f.live) in
        let cloexec =
          set_cloexec-Sound s calls place d (not (bit_and argument 1 == 0)) v f.stands in
        let flag =
          set_nonblock-Sound s calls f.target p (has_flag argument o_nonblock) v f.live there in
        let size = set_pipe_size-Sound s calls v f.target p f.live there argument malloc_ok in
        rw (e, f.points, there, fakefd_fcntl) (ground (arith, v, dup, cloexec, flag, size))
  ]
