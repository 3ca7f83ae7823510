-- ===== src/FakeFd/Creation.antt =====
-- The calls that make descriptors keep the books balanced: a new object has one reference for each
-- entry that the call writes.
use genshinimpact_nx.Base.{
  ℕ, ◌+◌, ◌^◌, ◌≤◌, ◌<◌, ◌≡◌, refl, sym, ◌∙◌, ◌≢◌, inl, inr, Bool, false, none, some, List, arith,
  ◌==◌, if◌then◌else◌, ==_iff, Bool-cases, Option-cases, length, get_elem?, set, length-set,
  get_elem?-set_self, get_elem?-set_ne, length-replicate, >>=-eq-some,
}
use mathlib.Core.Path.{subst}
use genshinimpact_nx.FakeFd.Model.{
  max_fake_fds, pipe_default_cap, Kind, pipe_r, pipe_w, event, random, same_kind, Pipe, OpenRef,
  FakeFd, State,
}
use genshinimpact_nx.FakeFd.Table.{update, get_open, alloc_high_locked}
use genshinimpact_nx.FakeFd.Descriptors.{
  o_nonblock, o_cloexec, has_flag, descriptor, new_pipe, new_event, new_random, taken_fd, two_slots,
  install, fakefd_pipe2, place_single, fakefd_eventfd, fakefd_random,
}
use genshinimpact_nx.FakeFd.Counts.{count_fds, count_aliases, count_calls, refs_of, IsPipe, Sound}
use genshinimpact_nx.FakeFd.References.{count_fds-set, refs-update, hit-parts}
use genshinimpact_nx.FakeFd.Lookup.{alloc_high_locked_lem}

new_event-IsPipe :
    (value : ℕ) (semaphore nonblock : Bool)
    → value < 2 ^ 32
    → IsPipe (new_event value semaphore nonblock)
new_event-IsPipe value semaphore nonblock h = ground arith

new_random-IsPipe : (nonblock : Bool) → IsPipe (new_random nonblock)
new_random-IsPipe nonblock = ground arith

new_pipe-IsPipe : (nonblock : Bool) → IsPipe (new_pipe nonblock)
new_pipe-IsPipe nonblock = record {
  readers_live = λ h. absurd (omega arith);
  readers_gone = λ h. absurd (omega arith);
  writers_live = λ h. absurd (omega arith);
  writers_gone = λ h. absurd (omega arith);
  alone = inl (
    refl,
    refl,
    record {
      storage = length-replicate {A = ℕ} pipe_default_cap 0;
      page = omega arith;
      small = omega arith;
      head_in = omega arith;
      len_in = omega arith;
    },
  );
  event_low = omega arith;
}

new_event-refs :
    (value : ℕ) (semaphore nonblock : Bool) (j : Kind)
    → (get_open j (new_event value semaphore nonblock)).refs ≡ (if same_kind j event then 1 else 0)
new_event-refs value semaphore nonblock pipe_r = refl
new_event-refs value semaphore nonblock _ = refl

new_random-refs :
    (nonblock : Bool) (j : Kind)
    → (get_open j (new_random nonblock)).refs ≡ (if same_kind j random then 1 else 0)
new_random-refs nonblock pipe_r = refl
new_random-refs nonblock _ = refl

new_pipe-refs :
    (nonblock : Bool) (j : Kind)
    → (get_open j (new_pipe nonblock)).refs
      ≡ (if same_kind j pipe_r then 1 else 0) + (if same_kind j pipe_w then 1 else 0)
new_pipe-refs nonblock pipe_r = refl
new_pipe-refs nonblock _ = refl

slot_apart :
    (fds : List FakeFd) (r w : ℕ) (d : FakeFd)
    → r < length fds
    → get_elem? (set fds r taken_fd) w ≡ some d
    → d.ref ≡ none
    → r ≢ w
slot_apart fds r w d within there empty p =
    let self : get_elem? (set fds r taken_fd) w ≡ some taken_fd =
      subst (λ k. get_elem? (set fds r taken_fd) k ≡ some taken_fd) p
        (get_elem?-set_self fds r taken_fd within) in
    ground arith

-- The two slots of a pipe are free and not the same, whatever the first is filled with.
pub two_slots_lem :
    (fds : List FakeFd) (r w : ℕ) (e : FakeFd)
    → two_slots fds ≡ some (r, w)
    → (c d : FakeFd) × (get_elem? fds r ≡ some c)
      × (c.ref ≡ none)
      × (get_elem? (set fds r e) w ≡ some d)
      × (d.ref ≡ none)
      × (r ≢ w)
two_slots_lem fds r w e h =
    let (r', first, rest) = >>=-eq-some (alloc_high_locked fds) _ h in
    let (w', second, last) = >>=-eq-some (alloc_high_locked (set fds r' taken_fd)) _ rest in
    let same_r : r' ≡ r = ground arith in
    let same_w : w' ≡ w = ground arith in
    let (in_r, c, at_r, empty_r) = alloc_high_locked_lem fds r (cc) in
    let (in_w, d, at_w, empty_w) = alloc_high_locked_lem (set fds r taken_fd) w (cc) in
    let apart = slot_apart fds r w d in_r at_w empty_w in
    (
      c,
      d,
      at_r,
      empty_r,
      get_elem?-set_ne fds e apart ∙ sym (get_elem?-set_ne fds taken_fd apart) ∙ at_w,
      empty_w,
      apart,
    )

module _ (s : State) (calls : List OpenRef) (v : Sound s calls) where
  install-counted :
      (p : Pipe) (fds : List FakeFd) (q : OpenRef)
      → count_fds q fds
        ≡ count_fds q s.fds + (if s.fresh == q.pipe then (get_open q.kind p).refs else 0)
      → refs_of (update s.heap s.fresh (some p)) q
        ≡ count_fds q fds + count_aliases q s.aliases + count_calls q calls
  install-counted p fds q added = elim (Bool-cases (s.fresh == q.pipe)) [
    | inl e ↦
        let same : s.fresh ≡ q.pipe = (==_iff s.fresh q.pipe).0 e in
        let empty : s.heap q.pipe ≡ none = v.unused q.pipe (omega arith) in
        let old : refs_of s.heap q ≡ 0 = rw empty in
        let more : count_fds q fds ≡ count_fds q s.fds + (get_open q.kind p).refs = rw e at added in
        rw (refs-update s.heap s.fresh (some p) q, e) (omega (arith, v.counted q))
    | inr e ↦
        let more : count_fds q fds ≡ count_fds q s.fds + 0 = rw e at added in
        rw (refs-update s.heap s.fresh (some p) q, e) (omega (arith, v.counted q))
  ]

  -- A new object whose references are those of the new table is accounted for.
  install-Sound :
      (p : Pipe) (fds : List FakeFd)
      → IsPipe p
      → length fds ≡ max_fake_fds
      → ((q : OpenRef)
          → count_fds q fds
            ≡ count_fds q s.fds + (if s.fresh == q.pipe then (get_open q.kind p).refs else 0))
      → Sound (install s p fds) calls
  install-Sound p fds w size added = record {
    fds_length = size;
    aliases_length = v.aliases_length;
    calls_bound = v.calls_bound;
    counted = λ q. install-counted p fds q (added q);
    objects = λ a. elim (Bool-cases (s.fresh == a)) [ inl e ↦ rw e w | inr e ↦ rw e (v.objects a) ];
    unused = λ a h. rw (fresh-ne a h) (v.unused a (omega arith));
    aliased = v.aliased;
  }
    where
      fresh-ne : (a : ℕ) → s.fresh + 1 ≤ a → (s.fresh == a) ≡ false
      fresh-ne a h = ground arith

  -- One entry for a new object with one reference.
  single-Sound :
      (p : Pipe) (k : Kind) (cloexec : Bool)
      → IsPipe p
      → ((j : Kind) → (get_open j p).refs ≡ (if same_kind j k then 1 else 0))
      → Sound (place_single s p k cloexec).1 calls
  single-Sound p k cloexec w one = elim (Option-cases (alloc_high_locked s.fds)) [
    | inl e ↦ rw (e, place_single) v
    | inr (i, e) ↦
        let (within, d, there, empty) = alloc_high_locked_lem s.fds i e in
        let o : FakeFd = descriptor s.fresh k cloexec in
        rw (e, place_single)
          (install-Sound p (set s.fds i o) w (length-set s.fds i o ∙ v.fds_length) (λ q. ground (
            arith,
            count_fds-set q s.fds i d o there,
            one q.kind,
            hit-parts q (record { pipe = s.fresh; kind = k }),
          )))
  ]

  -- `fakefd_eventfd` keeps the books balanced, with or without a free slot and memory, for an initial
  -- value of 32 bits.
  pub eventfd-Sound :
      (initial_value flags : ℕ) (calloc_ok : Bool)
      → initial_value < 2 ^ 32
      → Sound (fakefd_eventfd initial_value flags calloc_ok s).1 calls
  unfolding fakefd_eventfd
  eventfd-Sound initial_value flags calloc_ok small = ground (
    arith,
    v,
    single-Sound (new_event initial_value (has_flag flags 1) (has_flag flags o_nonblock)) event
        (has_flag flags o_cloexec) (new_event-IsPipe _ _ _ small)
        (new_event-refs initial_value (has_flag flags 1) (has_flag flags o_nonblock)),
  )

  pub random-Sound :
      (flags : ℕ) (calloc_ok : Bool) → Sound (fakefd_random flags calloc_ok s).1 calls
  unfolding fakefd_random
  random-Sound flags calloc_ok = ground (
    arith,
    v,
    single-Sound (new_random (has_flag flags o_nonblock)) random (has_flag flags o_cloexec)
        (new_random-IsPipe _) (new_random-refs (has_flag flags o_nonblock)),
  )

  pair-Sound :
      (r w : ℕ) (nonblock cloexec : Bool)
      → two_slots s.fds ≡ some (r, w)
      → Sound
          (install s (new_pipe nonblock) (
            set
              (set s.fds r (descriptor s.fresh pipe_r cloexec))
              w
              (descriptor s.fresh pipe_w cloexec)))
          calls
  pair-Sound r w nonblock cloexec e =
      let x : FakeFd = descriptor s.fresh pipe_r cloexec in
      let y : FakeFd = descriptor s.fresh pipe_w cloexec in
      let (c, d, at_r, empty_r, at_w, empty_w, apart) = two_slots_lem s.fds r w x e in
      install-Sound (new_pipe nonblock) (set (set s.fds r x) w y) (new_pipe-IsPipe nonblock)
        (length-set (set s.fds r x) w y ∙ length-set s.fds r x ∙ v.fds_length)
        (λ q. ground (
          arith,
          count_fds-set q s.fds r c x at_r,
          count_fds-set q (set s.fds r x) w d y at_w,
          new_pipe-refs nonblock q.kind,
          hit-parts q (record { pipe = s.fresh; kind = pipe_r }),
          hit-parts q (record { pipe = s.fresh; kind = pipe_w }),
        ))

  -- `fakefd_pipe2` keeps the books balanced, with or without free slots and memory: two descriptors hold
  -- the two ends of a new pipe, or nothing changes.
  pub pipe2-Sound :
      (fds : Bool) (flags : ℕ) (calloc_ok malloc_ok : Bool)
      → Sound (fakefd_pipe2 fds flags calloc_ok malloc_ok s).2 calls
  unfolding fakefd_pipe2
  pipe2-Sound fds flags calloc_ok malloc_ok = elim (Option-cases (two_slots s.fds)) [
    | inl e ↦ rw (e, fakefd_pipe2) (ground (arith, v))
    | inr ((r, w), e) ↦
        rw (e, fakefd_pipe2)
          (ground
            (arith, v, pair-Sound r w (has_flag flags o_nonblock) (has_flag flags o_cloexec) e))
  ]
