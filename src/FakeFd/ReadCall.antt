-- ===== src/FakeFd/ReadCall.antt =====
-- `fakefd_operation_read` on the read end of a pipe, from the checks to the release.
use genshinimpact_nx.Base.{
  ℕ, ◌<◌, min, ◌≡◌, refl, ap, ◌∙◌, inl, inr, true, ◌&&◌, none, some, List, [], ◌∷◌, arith, Bytes,
  ltb, ◌==◌, if◌then◌else◌, Bool-cases, length, take, drop, length-take,
}
use genshinimpact_nx.FakeFd.Model.{
  eagain, Kind, pipe_r, FakeOpen, Pipe, OpenRef, State, Outcome, returns, fails, waits,
}
use genshinimpact_nx.FakeFd.Table.{Heap, update, bump, open_retain_locked}
use genshinimpact_nx.FakeFd.Counts.{refs_of, IsPipe, Sound}
use genshinimpact_nx.FakeFd.References.{hit_self, retain_lem}
use genshinimpact_nx.FakeFd.Safety.{HasRoom}
use genshinimpact_nx.FakeFd.Transfers.{
  settle, take_bytes, resume_read, refuse_read, fakefd_operation_read,
}
use genshinimpact_nx.FakeFd.Ring.{read_loop}
use genshinimpact_nx.FakeFd.Window.{contents}
use genshinimpact_nx.FakeFd.Chunks.{IsRing, read_loop_lem}
use genshinimpact_nx.FakeFd.Writes.{length-contents}
use genshinimpact_nx.FakeFd.Frames.{
  SameEnds, SameEnds-refl, read_loop-SameEnds, IsPipe-same, IsRing-of_reader,
}
use genshinimpact_nx.FakeFd.PipeWrites.{holding, held_object, settle-modified}
use genshinimpact_nx.FakeFd.WriteCall.{
  pipe_view, retained_object, settled_view, update_self, still_held,
}

-- What a read of `n` bytes from the pipe `p` comes to: the outcome, the bytes, and what is left.
abbrev pub received : Pipe → ℕ → Outcome × Bytes × Bytes
received p n =
    if p.len == 0 && ltb 0 p.writers
    then ((if p.read_open.nonblock then fails eagain else waits 0), [], contents p)
    else (returns (min n p.len), take n (contents p), drop n (contents p))

received-bump : (k : Kind) (p : Pipe) (n : ℕ) → received (bump 1 k p) n ≡ received p n
unfolding contents
received-bump pipe_r p n = refl
received-bump _ p n = refl

take_bytes_lem :
    (p : Pipe) (n : ℕ)
    → IsPipe p
    → IsRing p
    → let r = take_bytes p.read_open.nonblock n p in
      (r.0 ≡ (received p n).0)
      × (r.1 ≡ (received p n).1)
      × (contents r.2 ≡ (received p n).2)
      × SameEnds p r.2
      × IsPipe r.2
unfolding take_bytes
take_bytes_lem p n w v =
    let (front, left, good) = read_loop_lem n p v in
    let same = read_loop-SameEnds n p in
    let whole = IsPipe-same p (read_loop n p).1 w same (λ x. good) in
    let size : length (read_loop n p).0 ≡ min n p.len =
      ap length front ∙ length-take n (contents p) ∙ ap (min n) (length-contents p) in
    elim (Bool-cases (p.len == 0 && ltb 0 p.writers)) [
      | inl e ↦ rw e (refl, refl, refl, SameEnds-refl p, w)
      | inr e ↦ rw e (ap returns size, front, left, same, whole)
    ]

resumed :
    (random_get : ℕ → Bytes) (s : State) (o : OpenRef) (q : Pipe) (n : ℕ) (h : Heap) (out : Outcome)
    (bytes : Bytes)
    → o.kind ≡ pipe_r
    → s.heap o.pipe ≡ some q
    → (take_bytes q.read_open.nonblock n q).0 ≡ out
    → (take_bytes q.read_open.nonblock n q).1 ≡ bytes
    → settle o out (update s.heap o.pipe (some (take_bytes q.read_open.nonblock n q).2)) ≡ some h
    → resume_read random_get o n s ≡ some (out, bytes, record s { heap = h })
unfolding resume_read
resumed random_get s o q n h out bytes kind there out_is bytes_is step =
    ground (arith, there, kind, out_is, bytes_is, step)

module _ (random_get : ℕ → Bytes) (s : State) (calls : List OpenRef) (o : OpenRef) (p : Pipe)
    (n : ℕ) (v : Sound s (o ∷ calls)) (room : HasRoom (o ∷ calls)) (kind : o.kind ≡ pipe_r)
    (there : s.heap o.pipe ≡ some p) (some_bytes : 0 < n) where
  passes : refuse_read o.kind true n ≡ none
  unfolding refuse_read
  passes = rw kind (ground arith)

  started :
      (h : Heap)
      → open_retain_locked o s.heap ≡ some h
      → fakefd_operation_read random_get (some o) true n s
        ≡ resume_read random_get o n (record s { heap = h })
  unfolding fakefd_operation_read
  started h step = rw (there, passes, step) refl

  -- A read from a pipe takes the oldest bytes, up to `n`, and leaves the others in order; an empty
  -- pipe with a writer refuses or waits. The books stay balanced.
  pub operation_read_lem :
      (t : State) × (fakefd_operation_read random_get (some o) true n s
        ≡ some ((received p n).0, (received p n).1, t))
      × (pipe_view t o.pipe ≡ some (received p n).2)
      × Sound t (holding (received p n).0 o (o ∷ calls))
  operation_read_lem =
      let (q0, there_q, w0, held, live) = held_object s calls o v in
      let (h, step, x) = retain_lem s (o ∷ calls) v o live room in
      let q = bump 1 o.kind p in
      let there' = retained_object o s.heap h p step there in
      let w : IsPipe q = rw there' at (x.objects o.pipe) in
      let live' : 0 < refs_of h o = omega (arith, x.counted o, hit_self o) in
      let held' : 0 < q.read_open.refs = ground (arith, there', live', kind) in
      let (out_is, bytes_is, left_is, same, whole) =
        take_bytes_lem q n w (IsRing-of_reader q w held') in
      let out = (received p n).0 in
      let eq = received-bump o.kind p n in
      let q' = (take_bytes q.read_open.nonblock n q).2 in
      let (h', step', y) =
        settle-modified (record s { heap = h }) (o ∷ calls) o x q q' out there' live' whole
          (λ k. ap (λ (f : FakeOpen). f.refs) (same.opens_same k)) in
      let t : State = record s { heap = h' } in
      (
        t,
        started h step
            ∙ resumed random_get (record s { heap = h }) o q n h' out (received p n).1 kind there'
                (out_is ∙ ap (λ (e : Outcome × Bytes × Bytes). e.0) eq)
                (bytes_is ∙ ap (λ (e : Outcome × Bytes × Bytes). e.1) eq) step',
        settled_view s t o out (update h o.pipe (some q')) q' (update_self h o.pipe (some q')) step'
              (still_held t calls o out y)
            ∙ ap some (left_is ∙ ap (λ (e : Outcome × Bytes × Bytes). e.2) eq),
        y,
      )
