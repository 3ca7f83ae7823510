-- ===== src/FakeFd/References.antt =====
-- References are kept in step with the pointers: taking one, letting one go, and moving one between a
-- call in progress and a table.
use genshinimpact_nx.Base.{
  refl, ℕ, zero, suc, ◌+◌, ◌-◌, ◌^◌, ◌≤◌, ◌<◌, ◌≡◌, ◌∙◌, ◌↔◌, inl, inr, true, false, Option, none,
  some, List, [], ◌∷◌, arith, ◌==◌, if◌then◌else◌, ==_iff, Bool-cases, Option-cases, length,
  get_elem?, set, length-set,
}
use genshinimpact_nx.FakeFd.Model.{Kind, pipe_r, same_kind, Pipe, OpenRef, FakeFd, FakeAlias, State}
use genshinimpact_nx.FakeFd.Table.{
  Heap, update, get_open, bump, open_retain_locked, open_release_locked,
}
use genshinimpact_nx.FakeFd.Counts.{
  hit, count_fds, count_aliases, count_calls, refs_in, refs_of, IsPipe, IsObject, IsAlias,
  AllAliases, Sound, released, released-refs, released-IsObject,
}

pub same_kind_iff : (a b : Kind) → (same_kind a b ≡ true) ↔ (a ≡ b)
same_kind_iff pipe_r b = ground arith
same_kind_iff a b = ground arith

pub hit_self : (o : OpenRef) → hit o (some o) ≡ 1
hit_self o = ground (arith, same_kind_iff o.kind o.kind)

pub count_fds-le : (o : OpenRef) (ds : List FakeFd) → count_fds o ds ≤ length ds
count_fds-le o [] = omega arith
count_fds-le o (d ∷ ds) = ground (arith, count_fds-le o ds)

pub count_aliases-le : (o : OpenRef) (l : List FakeAlias) → count_aliases o l ≤ length l
count_aliases-le o [] = omega arith
count_aliases-le o (a ∷ l) = ground (arith, count_aliases-le o l)

pub count_calls-le : (o : OpenRef) (l : List OpenRef) → count_calls o l ≤ length l
count_calls-le o [] = omega arith
count_calls-le o (a ∷ l) = ground (arith, count_calls-le o l)

-- An entry written to a table changes the count by what it held and what it holds.
pub count_fds-set :
    (o : OpenRef) (ds : List FakeFd) (i : ℕ) (d e : FakeFd)
    → get_elem? ds i ≡ some d
    → count_fds o (set ds i e) + hit o d.ref ≡ count_fds o ds + hit o e.ref
count_fds-set o [] i d e h = cc
count_fds-set o (x ∷ ds) zero d e h = ground arith
count_fds-set o (x ∷ ds) (suc i) d e h = omega (arith, count_fds-set o ds i d e h)

pub count_aliases-set :
    (o : OpenRef) (l : List FakeAlias) (i : ℕ) (a b : FakeAlias)
    → get_elem? l i ≡ some a
    → count_aliases o (set l i b) + hit o a.descriptor.ref
      ≡ count_aliases o l + hit o b.descriptor.ref
count_aliases-set o [] i a b h = cc
count_aliases-set o (x ∷ l) zero a b h = ground arith
count_aliases-set o (x ∷ l) (suc i) a b h = omega (arith, count_aliases-set o l i a b h)

pub AllAliases-set :
    (l : List FakeAlias) (i : ℕ) (b : FakeAlias) → AllAliases l → IsAlias b → AllAliases (set l i b)
AllAliases-set [] i b h hb = h
AllAliases-set (x ∷ l) zero b h hb = (hb, h.1)
AllAliases-set (x ∷ l) (suc i) b h hb = (h.0, AllAliases-set l i b h.1 hb)

module _ {s : State} {calls : List OpenRef} (v : Sound s calls) where
  refs_bound : (o : OpenRef) → refs_of s.heap o < 2 ^ 32 - 1
  refs_bound o = omega (
    arith,
    v.counted o,
    count_fds-le o s.fds,
    count_aliases-le o s.aliases,
    count_calls-le o calls,
    v.fds_length,
    v.aliases_length,
    v.calls_bound,
  )

  -- A description with a reference is there.
  pub live_object :
      (o : OpenRef) → 0 < refs_of s.heap o → (p : Pipe) × (s.heap o.pipe ≡ some p) × IsPipe p
  live_object o h = elim (Option-cases (s.heap o.pipe)) [
    | inl e ↦ absurd (ground arith)
    | inr (p, e) ↦ (p, e, rw e at (v.objects o.pipe))
  ]

pub refs-update :
    (h : Heap) (a : ℕ) (p : Option Pipe) (q : OpenRef)
    → refs_of (update h a p) q ≡ (if a == q.pipe then refs_in q.kind p else refs_of h q)
refs-update h a p q = elim (Bool-cases (a == q.pipe)) [ inl e ↦ rw e | inr e ↦ rw e ]

bump-refs :
    (k j : Kind) (p : Pipe)
    → (get_open k p).refs < 2 ^ 32 - 1
    → (get_open j (bump 1 k p)).refs ≡ (get_open j p).refs + (if same_kind j k then 1 else 0)
bump-refs pipe_r j p h = ground arith
bump-refs k j p h = ground arith

bump-IsPipe :
    (k : Kind) (p : Pipe)
    → IsPipe p
    → 0 < (get_open k p).refs
    → (get_open k p).refs < 2 ^ 32 - 1
    → IsPipe (bump 1 k p)
bump-IsPipe pipe_r p v lo hi = ground arith
bump-IsPipe k p v lo hi = ground arith

-- The hit of a pointer, by the object and the member that it names.
pub hit-parts :
    (q o : OpenRef)
    → hit q (some o) ≡ (if o.pipe == q.pipe then (if same_kind q.kind o.kind then 1 else 0) else 0)
hit-parts q o = ground arith

module _ (s : State) (calls : List OpenRef) (v : Sound s calls) (o : OpenRef)
    (live : 0 < refs_of s.heap o) where
  -- The objects after the one behind `o` has become `p`.
  update-objects : (p : Option Pipe) → IsObject p → (a : ℕ) → IsObject (update s.heap o.pipe p a)
  update-objects p h a = elim (Bool-cases (o.pipe == a)) [
    | inl e ↦ rw e h
    | inr e ↦ rw e (v.objects a)
  ]

  update-unused : (p : Option Pipe) (a : ℕ) → s.fresh ≤ a → update s.heap o.pipe p a ≡ none
  update-unused p a h = elim (Bool-cases (o.pipe == a)) [
    | inl e ↦
        let (q, there, w) = live_object v o live in
        let same : o.pipe ≡ a = (==_iff o.pipe a).0 e in cc (v.unused a h, same, there)
    | inr e ↦ rw e (v.unused a h)
  ]

  -- Where the members of `o`'s object and the calls change by the same amount, the books balance.
  update-counted :
      (p : Option Pipe) (calls' : List OpenRef)
      → ((k : Kind)
          → refs_in k p + count_calls (record { pipe = o.pipe; kind = k }) calls
            ≡ refs_in k (s.heap o.pipe) + count_calls (record { pipe = o.pipe; kind = k }) calls')
      → ((q : OpenRef) → (o.pipe == q.pipe) ≡ false → count_calls q calls' ≡ count_calls q calls)
      → (q : OpenRef)
      → refs_of (update s.heap o.pipe p) q
        ≡ count_fds q s.fds + count_aliases q s.aliases + count_calls q calls'
  update-counted p calls' change other q = elim (Bool-cases (o.pipe == q.pipe)) [
    | inl e ↦
        let same : o.pipe ≡ q.pipe = (==_iff o.pipe q.pipe).0 e in
        let here = rw same at (change q.kind) in
        rw (refs-update s.heap o.pipe p q, e) (omega (arith, v.counted q, here))
    | inr e ↦ rw (refs-update s.heap o.pipe p q, e) (omega (arith, v.counted q, other q e))
  ]

  -- A call that takes a reference holds it.
  pub retain_lem :
      length calls + 1 < 2 ^ 31
      → (h : Heap) × (open_retain_locked o s.heap ≡ some h)
        × Sound (record s { heap = h }) (o ∷ calls)
  unfolding open_retain_locked
  retain_lem room =
      let (p, there, w) = live_object v o live in
      let held : 0 < (get_open o.kind p).refs = rw there at live in
      let low : (get_open o.kind p).refs < 2 ^ 32 - 1 = rw there at (refs_bound v o) in
      let q = bump 1 o.kind p in
      (
        update s.heap o.pipe (some q),
        rw there,
        record {
          fds_length = v.fds_length;
          aliases_length = v.aliases_length;
          calls_bound = omega arith;
          counted =
              update-counted (some q) (o ∷ calls)
                (λ k. ground (
                  arith,
                  there,
                  bump-refs o.kind k p,
                  hit-parts (record { pipe = o.pipe; kind = k }) o,
                ))
                (λ r ne. ground (arith, hit-parts r o));
          objects = update-objects (some q) (bump-IsPipe o.kind p w held low);
          unused = update-unused (some q);
          aliased = v.aliased;
        },
      )

-- A call that lets its reference go leaves the books balanced; the last reference frees the object.
pub release_lem :
    (s : State) (calls : List OpenRef) (o : OpenRef)
    → Sound s (o ∷ calls)
    → (h : Heap) × (open_release_locked o s.heap ≡ some h) × Sound (record s { heap = h }) calls
unfolding open_release_locked
release_lem s calls o v =
    let live : 0 < refs_of s.heap o = omega (arith, v.counted o, hit_self o) in
    let (p, there, w) = live_object v o live in
    let held : 0 < (get_open o.kind p).refs = rw there at live in
    let low : (get_open o.kind p).refs < 2 ^ 32 - 1 = rw there at (refs_bound v o) in
    let q = released o.kind p in
    (
      update s.heap o.pipe q,
      rw there,
      record {
        fds_length = v.fds_length;
        aliases_length = v.aliases_length;
        calls_bound = omega (arith, v.calls_bound);
        counted =
            update-counted s (o ∷ calls) v o live q calls
              (λ k. ground (
                arith,
                there,
                released-refs o.kind k p w held (omega arith),
                hit-parts (record { pipe = o.pipe; kind = k }) o,
              ))
              (λ r ne. ground (arith, hit-parts r o));
        objects =
            update-objects s (o ∷ calls) v o live q
              (released-IsObject o.kind p w held (omega arith));
        unused = update-unused s (o ∷ calls) v o live q;
        aliased = v.aliased;
      },
    )

-- What a descriptor entry holds may change as long as the calls in progress make up for it.
pub set_fd_lem :
    (s : State) (calls calls' : List OpenRef) (i : ℕ) (d e : FakeFd)
    → Sound s calls
    → get_elem? s.fds i ≡ some d
    → ((q : OpenRef) → hit q e.ref + count_calls q calls' ≡ hit q d.ref + count_calls q calls)
    → length calls' < 2 ^ 31
    → Sound (record s { fds = set s.fds i e }) calls'
set_fd_lem s calls calls' i d e v there balance room = record {
  fds_length = length-set s.fds i e ∙ v.fds_length;
  aliases_length = v.aliases_length;
  calls_bound = room;
  counted = λ q. omega (arith, v.counted q, balance q, count_fds-set q s.fds i d e there);
  objects = v.objects;
  unused = v.unused;
  aliased = v.aliased;
}

pub set_alias_lem :
    (s : State) (calls calls' : List OpenRef) (i : ℕ) (a b : FakeAlias)
    → Sound s calls
    → get_elem? s.aliases i ≡ some a
    → IsAlias b
    → ((q : OpenRef)
        → hit q b.descriptor.ref + count_calls q calls'
          ≡ hit q a.descriptor.ref + count_calls q calls)
    → length calls' < 2 ^ 31
    → Sound (record s { aliases = set s.aliases i b }) calls'
set_alias_lem s calls calls' i a b v there good balance room = record {
  fds_length = v.fds_length;
  aliases_length = length-set s.aliases i b ∙ v.aliases_length;
  calls_bound = room;
  counted = λ q. omega (arith, v.counted q, balance q, count_aliases-set q s.aliases i a b there);
  objects = v.objects;
  unused = v.unused;
  aliased = AllAliases-set s.aliases i b v.aliased good;
}

-- An object may change as long as its references stay.
pub modify_lem :
    (s : State) (calls : List OpenRef) (o : OpenRef) (p q : Pipe)
    → Sound s calls
    → 0 < refs_of s.heap o
    → s.heap o.pipe ≡ some p
    → IsPipe q
    → ((k : Kind) → (get_open k q).refs ≡ (get_open k p).refs)
    → Sound (record s { heap = update s.heap o.pipe (some q) }) calls
modify_lem s calls o p q v live there w same = record {
  fds_length = v.fds_length;
  aliases_length = v.aliases_length;
  calls_bound = v.calls_bound;
  counted =
      update-counted s calls v o live (some q) calls (λ k. rw there (omega (arith, same k)))
        (λ r ne. refl);
  objects = update-objects s calls v o live (some q) w;
  unused = update-unused s calls v o live (some q);
  aliased = v.aliased;
}
