-- ===== src/FakeFd/Safety.antt =====
-- The calls that copy and close descriptors follow no dangling pointer, and keep the books balanced.
use genshinimpact_nx.Base.{
  ℕ, ◌+◌, ◌^◌, ◌<◌, ◌≡◌, refl, inl, inr, Bool, false, Option, none, some, List, ◌∷◌, arith, ℤ,
  Option-cases, length, get_elem?,
}
use genshinimpact_nx.FakeFd.Model.{OpenRef, FakeFd, free_fd, free_alias, State, Outcome}
use genshinimpact_nx.FakeFd.Table.{
  open_release_locked, Place, high, alias, descriptor_locked, alloc_high_locked,
}
use genshinimpact_nx.FakeFd.Descriptors.{
  share, fakefd_dup, clear_place, fakefd_close, fakefd_operation_acquire,
}
use genshinimpact_nx.FakeFd.Counts.{refs_of, Sound}
use genshinimpact_nx.FakeFd.References.{retain_lem, release_lem, set_fd_lem, set_alias_lem}
use genshinimpact_nx.FakeFd.Lookup.{alloc_high_locked_lem, Stands, descriptor_locked_lem}

-- A call that ends without a fault, with `calls` still holding what they held.
abbrev pub Safe : List OpenRef → Option (Outcome × State) → Type 0
Safe calls none = ⊥
Safe calls (some (out, s)) = Sound s calls

-- The room that one more reference needs.
abbrev pub HasRoom : List OpenRef → Type 0
HasRoom calls = length calls + 1 < 2 ^ 31

module _ (s : State) (calls : List OpenRef) (v : Sound s calls) (room : HasRoom calls) where
  pub share-Safe :
      (o : OpenRef) (i : ℕ) (cloexec : Bool) (d : FakeFd)
      → 0 < refs_of s.heap o
      → get_elem? s.fds i ≡ some d
      → d.ref ≡ none
      → Safe calls (share (some o) i cloexec s)
  unfolding share
  share-Safe o i cloexec d live there empty =
      let (h, step, w) = retain_lem s calls v o live room in
      let e : FakeFd = record { ref = some o; cloexec = cloexec } in
      rw step (
        set_fd_lem (record s { heap = h }) (o ∷ calls) calls i d e w there
          (λ q. rw empty (omega arith)) (omega (arith, v.calls_bound)))

  -- `fakefd_dup` follows only live pointers and keeps the books balanced.
  pub dup-Safe : (fd : ℤ) → Safe calls (fakefd_dup fd s)
  unfolding fakefd_dup
  dup-Safe fd = elim (Option-cases (descriptor_locked s fd)) [
    | inl e ↦ rw (e, fakefd_dup) v
    | inr ((place, d), e) ↦
        let f = descriptor_locked_lem s calls fd place d v e in
        elim (Option-cases (alloc_high_locked s.fds)) [
          | inl e2 ↦ rw (e, e2, fakefd_dup) v
          | inr (i, e2) ↦
              let (within, old, there, empty) = alloc_high_locked_lem s.fds i e2 in
              rw (e, e2, f.points, fakefd_dup) (share-Safe f.target i false old f.live there empty)
        ]
  ]

  -- A call in progress that was started holds one reference more.
  abbrev pub Started : Option (Option OpenRef × State) → Type 0
  Started none = ⊥
  Started (some (none, t)) = Sound t calls
  Started (some (some o, t)) = Sound t (o ∷ calls)

  -- `fakefd_operation_acquire` follows only live pointers, and the description it hands out has one
  -- reference more, which stands for the call.
  pub acquire-Started : (fd : ℤ) → Started (fakefd_operation_acquire fd s)
  unfolding fakefd_operation_acquire
  acquire-Started fd = elim (Option-cases (descriptor_locked s fd)) [
    | inl e ↦ rw (e, fakefd_operation_acquire) v
    | inr ((place, d), e) ↦
        let f = descriptor_locked_lem s calls fd place d v e in
        let (h, step, w) = retain_lem s calls v f.target f.live room in
        rw (e, f.points, step, fakefd_operation_acquire) w
  ]

-- An entry taken out of its table leaves its reference with the caller.
pub clear-Sound :
    (s : State) (calls : List OpenRef) (place : Place) (d : FakeFd) (o : OpenRef)
    → Sound s calls
    → HasRoom calls
    → Stands s place d
    → d.ref ≡ some o
    → Sound ((clear_place place s).1) (o ∷ calls)
clear-Sound s calls (high i) d o v room there points =
    set_fd_lem s calls (o ∷ calls) i d free_fd v there (λ q. rw points (omega arith)) (omega arith)
clear-Sound s calls (alias i) d o v room (a, there, its, used) points =
    set_alias_lem s calls (o ∷ calls) i a free_alias v there (ground arith)
      (λ q. rw (its, points) (omega arith)) (omega arith)

pub clear-heap : (s : State) (place : Place) → (clear_place place s).1.heap ≡ s.heap
clear-heap s (high i) = refl
clear-heap s (alias i) = refl

-- What `fakefd_close` leaves.
abbrev pub Closed : List OpenRef → Option (Outcome × Bool × State) → Type 0
Closed calls none = ⊥
Closed calls (some (out, native, t)) = Sound t calls

-- `fakefd_close` follows only live pointers and keeps the books balanced: one reference less, with the
-- object freed when its last one goes.
pub close-Closed :
    (s : State) (calls : List OpenRef) (fd : ℤ)
    → Sound s calls
    → HasRoom calls
    → Closed calls (fakefd_close fd s)
unfolding fakefd_close
close-Closed s calls fd v room = elim (Option-cases (descriptor_locked s fd)) [
  | inl e ↦ rw (e, fakefd_close) v
  | inr ((place, d), e) ↦
      let f = descriptor_locked_lem s calls fd place d v e in
      let w = clear-Sound s calls place d f.target v room f.stands f.points in
      let (h, step, x) = release_lem ((clear_place place s).1) calls f.target w in
      let step' : open_release_locked f.target s.heap ≡ some h = rw (clear-heap s place) at step in
      rw (e, f.points, step', fakefd_close) x
]
