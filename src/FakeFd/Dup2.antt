-- ===== src/FakeFd/Dup2.antt =====
-- `fakefd_dup2` keeps the books balanced in each of its exits, whatever happens around it.
use genshinimpact_nx.Base.{
  ℕ, zero, suc, ◌<◌, ◌≡◌, refl, inl, inr, Bool, false, none, some, List, [], ◌∷◌, arith, ℤ, pos,
  negsuc, Option-cases, length, get_elem?, set, get_elem?-set_self,
}
use genshinimpact_nx.FakeFd.Model.{
  max_fake_fds, Errno, OpenRef, FakeFd, FakeAlias, free_alias, State,
}
use genshinimpact_nx.FakeFd.Table.{
  open_release_locked, high_slot, descriptor_locked, unused_alias, reservation,
  reserve_alias_locked,
}
use genshinimpact_nx.FakeFd.Control.{
  Natives, abandon, commit, dup2_low, dup2_high, dup2_to, fakefd_dup2,
}
use genshinimpact_nx.FakeFd.Counts.{Sound}
use genshinimpact_nx.FakeFd.References.{retain_lem, release_lem, set_fd_lem, set_alias_lem}
use genshinimpact_nx.FakeFd.Lookup.{AllAliases-get, unused_alias_lem, descriptor_locked_lem}
use genshinimpact_nx.FakeFd.Safety.{Safe, HasRoom}

-- What `fakefd_dup2` relies on in `close_fake_backend`: it keeps the books balanced for the calls in
-- progress, and leaves alone a slot that is reserved.
pub record IsBackend (close : State → Bool × State) : Type 0 where
  pub balanced : (t : State) (calls : List OpenRef) → Sound t calls → Sound (close t).1 calls
  pub reserved :
      (t : State) (i : ℕ) (target : ℤ)
      → get_elem? t.aliases i ≡ some (reservation target)
      → get_elem? (close t).1.aliases i ≡ some (reservation target)

get_elem?-in :
    {A : Type 0} (xs : List A) (i : ℕ) → i < length xs → (x : A) × (get_elem? xs i ≡ some x)
get_elem?-in [] i h = absurd (omega arith)
get_elem?-in (x ∷ xs) zero h = (x, refl)
get_elem?-in (x ∷ xs) (suc i) h = get_elem?-in xs i (omega arith)

get_elem?-lt : {A : Type 0} (xs : List A) (i : ℕ) (x : A) → get_elem? xs i ≡ some x → i < length xs
get_elem?-lt [] i x h = cc
get_elem?-lt (y ∷ xs) zero x h = omega arith
get_elem?-lt (y ∷ xs) (suc i) x h = omega (arith, get_elem?-lt xs i x h)

high_slot-lt : (fd : ℤ) (i : ℕ) → high_slot fd ≡ some i → i < max_fake_fds
high_slot-lt (pos n) i h = ground arith
high_slot-lt (negsuc n) i h = cc

-- A reservation that is given up.
abandon-Safe :
    (s : State) (calls : List OpenRef) (i : ℕ) (target : ℤ) (o : OpenRef) (e : Errno)
    → Sound s (o ∷ calls)
    → get_elem? s.aliases i ≡ some (reservation target)
    → Safe calls (abandon i o e s)
abandon-Safe s calls i target o e v there =
    let (h, step, w) = release_lem s calls o v in
    rw (step, abandon)
      (set_alias_lem (record s { heap = h }) calls calls i (reservation target) free_alias w there
        (ground arith) (λ q. refl) w.calls_bound)

commit-Sound :
    (s : State) (calls : List OpenRef) (i : ℕ) (target : ℤ) (o : OpenRef)
    → Sound s (o ∷ calls)
    → get_elem? s.aliases i ≡ some (reservation target)
    → Sound (commit i o target s).1 calls
commit-Sound s calls i target o v there =
    set_alias_lem s (o ∷ calls) calls i (reservation target)
      (record { used = 1; fd = target; descriptor = record { ref = some o; cloexec = false } }) v
      there (ground arith) (λ q. omega arith) (omega (arith, v.calls_bound))

module _ (env : Natives) (target : ℤ) (backend : IsBackend (env.close_fake_backend target))
    (calls : List OpenRef) (o : OpenRef) where
  dup2_low-Safe :
      (s : State) (i : ℕ)
      → Sound s (o ∷ calls)
      → get_elem? s.aliases i ≡ some (reservation target)
      → Safe calls (dup2_low env o target i s)
  unfolding dup2_low
  dup2_low-Safe s i v there =
      let closed = (env.close_fake_backend target s).1 in
      let w = backend.balanced s (o ∷ calls) v in
      let still = backend.reserved s i target there in
      elim (Option-cases env.holder) [
        | inl e ↦ rw (e, dup2_low) (abandon-Safe s calls i target o env.saved v there)
        | inr (holder, e) ↦
            rw (e, dup2_low)
              (ground (
                arith,
                commit-Sound s calls i target o v there,
                commit-Sound closed calls i target o w still,
                abandon-Safe closed calls i target o env.saved w still,
              ))
      ]

  dup2_high-Safe :
      (s : State) (i : ℕ) → i < max_fake_fds → Sound s (o ∷ calls) → Safe calls (dup2_high o i s)
  unfolding dup2_high
  dup2_high-Safe s i within v =
      let (d, there) = get_elem?-in s.fds i (omega (arith, v.fds_length)) in
      let new : FakeFd = record { ref = some o; cloexec = false } in
      elim (Option-cases d.ref) [
        | inl e ↦
            rw (there, e, dup2_high)
              (set_fd_lem s (o ∷ calls) calls i d new v there (λ q. rw e (omega arith))
                (omega (arith, v.calls_bound)))
        | inr (r, e) ↦
            let moved =
              set_fd_lem s (o ∷ calls) (r ∷ calls) i d new v there (λ q. rw e (omega arith))
                (omega (arith, v.calls_bound)) in
            let (h, step, w) = release_lem (record s { fds = set s.fds i new }) calls r moved in
            rw (there, e, step, dup2_high) w
      ]

  -- Taking a free slot changes no count.
  reserve-Sound :
      (s : State) (i : ℕ) (a : FakeAlias)
      → Sound s (o ∷ calls)
      → get_elem? s.aliases i ≡ some a
      → a.used ≡ 0
      → Sound (record s { aliases = set s.aliases i (reservation target) }) (o ∷ calls)
  reserve-Sound s i a v there free =
      let empty : a.descriptor.ref ≡ none =
        (AllAliases-get s.aliases i a v.aliased there).1 (omega arith) in
      set_alias_lem s (o ∷ calls) (o ∷ calls) i a (reservation target) v there (ground arith)
        (λ q. rw empty (omega arith)) v.calls_bound

  dup2_to-Safe : (s : State) → Sound s (o ∷ calls) → Safe calls (dup2_to env o target s)
  unfolding dup2_to open_release_locked reserve_alias_locked
  dup2_to-Safe s v = elim (Option-cases (high_slot target)) [
    | inr (i, e) ↦ rw (e, dup2_to) (dup2_high-Safe s i (high_slot-lt target i e) v)
    | inl e ↦
        let (h, step, w) = release_lem s calls o v in
        elim (Option-cases (unused_alias s.aliases)) [
          | inl none_left ↦ rw (e, none_left, step, dup2_to) (ground (arith, w))
          | inr (i, found) ↦
              let (a, there, unused) = unused_alias_lem s.aliases i found in
              rw (e, found, step, dup2_to)
                (ground (
                  arith,
                  w,
                  dup2_low-Safe (record s { aliases = set s.aliases i (reservation target) }) i
                      (reserve-Sound s i a v there unused)
                      (get_elem?-set_self s.aliases i (reservation target)
                        (get_elem?-lt s.aliases i a there)),
                ))
        ]
  ]

-- `fakefd_dup2` follows only live pointers, and on every exit each description is counted once for
-- each descriptor, alias and call that refers to it.
pub dup2-Safe :
    (env : Natives) (fd target : ℤ) (s : State) (calls : List OpenRef)
    → IsBackend (env.close_fake_backend target)
    → Sound s calls
    → HasRoom calls
    → Safe calls (fakefd_dup2 env fd target s)
unfolding fakefd_dup2
dup2-Safe env fd target s calls backend v room = elim (Option-cases (descriptor_locked s fd)) [
  | inl e ↦ rw (e, fakefd_dup2) (ground (arith, v))
  | inr ((place, d), e) ↦
      let f = descriptor_locked_lem s calls fd place d v e in
      let (h, step, w) = retain_lem s calls v f.target f.live room in
      rw (e, f.points, step, fakefd_dup2)
        (ground
          (arith, v, dup2_to-Safe env target backend calls f.target (record s { heap = h }) w))
]
