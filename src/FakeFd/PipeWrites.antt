-- ===== src/FakeFd/PipeWrites.antt =====
-- `fakefd_operation_write` and its resumption: what they write, and the references that they hold.
use genshinimpact_nx.Base.{
  ℕ, ◌+◌, ◌-◌, ◌<◌, ◌≡◌, refl, ap, Option, none, some, List, ◌∷◌, arith, Bytes, ltb, length,
}
use genshinimpact_nx.FakeFd.Model.{
  Kind, pipe_w, Pipe, OpenRef, State, Outcome, returns, fails, waits,
}
use genshinimpact_nx.FakeFd.Table.{Heap, update, get_open}
use genshinimpact_nx.FakeFd.Counts.{refs_of, IsPipe, Sound}
use genshinimpact_nx.FakeFd.References.{hit_self, live_object, release_lem, modify_lem}
use genshinimpact_nx.FakeFd.Transfers.{settle, resume_write}
use genshinimpact_nx.FakeFd.Ring.{write_loop}
use genshinimpact_nx.FakeFd.Window.{contents}
use genshinimpact_nx.FakeFd.Chunks.{IsRing}
use genshinimpact_nx.FakeFd.Writes.{send, write_loop_lem, write_loop-IsRing, view, Keeps}
use genshinimpact_nx.FakeFd.Frames.{
  SameEnds, Framed, write_loop-Framed, IsPipe-same, IsRing-of_writer,
}

-- A call that waits keeps its reference, any other lets it go.
abbrev pub holding : Outcome → OpenRef → List OpenRef → List OpenRef
holding (waits k) o calls = o ∷ calls
holding _ o calls = calls

pub settle_lem :
    (s : State) (calls : List OpenRef) (o : OpenRef) (out : Outcome)
    → Sound s (o ∷ calls)
    → (h : Heap) × (settle o out s.heap ≡ some h)
      × Sound (record s { heap = h }) (holding out o calls)
unfolding settle
settle_lem s calls o (waits k) v = (s.heap, refl, v)
settle_lem s calls o (returns k) v = release_lem s calls o v
settle_lem s calls o (fails e) v = release_lem s calls o v

-- The object behind a held description.
pub held_object :
    (s : State) (calls : List OpenRef) (o : OpenRef)
    → Sound s (o ∷ calls)
    → (p : Pipe) × (s.heap o.pipe ≡ some p)
      × IsPipe p
      × (0 < (get_open o.kind p).refs)
      × (0 < refs_of s.heap o)
held_object s calls o v =
    let live : 0 < refs_of s.heap o = omega (arith, v.counted o, hit_self o) in
    let (p, there, w) = live_object v o live in (p, there, w, rw there at live, live)

-- What a resumed write on a pipe does.
pub record PipeWrite (s : State) (calls : List OpenRef) (o : OpenRef) (p : Pipe)
    (expected : Outcome × Bytes) (r : Option (Outcome × State)) : Type 0 where
  pub outcome : Outcome
  pub written : Pipe
  pub after : State
  pub ends : r ≡ some (outcome, after)
  pub outcome_is : outcome ≡ expected.0
  pub contents_is : contents written ≡ expected.1
  pub settled : settle o outcome (update s.heap o.pipe (some written)) ≡ some after.heap
  pub balanced : Sound after (holding outcome o calls)

-- The inversion of a loop that has been viewed.
view-some :
    (p : Pipe) (r : Option (Outcome × Pipe)) (e : Outcome × Bytes)
    → view r ≡ some e
    → Keeps r
    → Framed p r
    → (q : Pipe) × (r ≡ some (e.0, q)) × (contents q ≡ e.1) × IsRing q × SameEnds p q
view-some p none e h k f = absurd k
view-some p (some (out, q)) e h k f = (q, ground arith, ground arith, k, f)

module _ (s : State) (calls : List OpenRef) (o : OpenRef) (v : Sound s (o ∷ calls)) where
  -- The object may be replaced by one with the same references, and the call settled.
  pub settle-modified :
      (p q : Pipe) (out : Outcome)
      → s.heap o.pipe ≡ some p
      → 0 < refs_of s.heap o
      → IsPipe q
      → ((k : Kind) → (get_open k q).refs ≡ (get_open k p).refs)
      → (h : Heap) × (settle o out (update s.heap o.pipe (some q)) ≡ some h)
        × Sound (record s { heap = h }) (holding out o calls)
  settle-modified p q out there live w same =
      settle_lem (record s { heap = update s.heap o.pipe (some q) }) calls o out
        (modify_lem s (o ∷ calls) o p q v live there w same)

  pub resume_write-PipeWrite :
      (p : Pipe) (n : ℕ) (rest : Bytes) (wrote : ℕ)
      → o.kind ≡ pipe_w
      → s.heap o.pipe ≡ some p
      → wrote + length rest ≡ n
      → PipeWrite s calls o p
          (send p.write_open.nonblock
            (ltb 0 p.readers)
            (p.capacity - p.len)
            (contents p)
            n
            rest
            wrote)
          (resume_write o n rest wrote s)
  unfolding resume_write
  resume_write-PipeWrite p n rest wrote kind there total =
      let nonblock = p.write_open.nonblock in
      let live : 0 < refs_of s.heap o = omega (arith, v.counted o, hit_self o) in
      let w : IsPipe p = rw there at (v.objects o.pipe) in
      let ring = IsRing-of_writer p w (ground (arith, there, live, kind)) in
      let (q, ran, holds, good, same) =
        view-some p (write_loop 2 nonblock n p rest wrote)
          (send nonblock (ltb 0 p.readers) (p.capacity - p.len) (contents p) n rest wrote)
          (write_loop_lem nonblock p n rest wrote ring 0 total)
          (write_loop-IsRing nonblock p n rest wrote ring 0 total)
          (write_loop-Framed 2 nonblock n p rest wrote) in
      let out =
        (send nonblock (ltb 0 p.readers) (p.capacity - p.len) (contents p) n rest wrote).0 in
      let (h, step, balanced) =
        settle-modified p q out there live (IsPipe-same p q w same (λ x. good))
          (λ k. ap (λ x. x.refs) (same.opens_same k)) in
      record {
        outcome = out;
        written = q;
        after = record s { heap = h };
        ends = ground (arith, there, kind, ran, step);
        outcome_is = refl;
        contents_is = holds;
        settled = step;
        balanced = balanced;
      }
