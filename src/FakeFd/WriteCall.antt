-- ===== src/FakeFd/WriteCall.antt =====
-- `fakefd_operation_write` on the write end of a pipe, from the checks to the release.
use genshinimpact_nx.Base.{
  ℕ, ◌-◌, ◌<◌, ◌≡◌, refl, sym, ap, ◌∙◌, inl, inr, true, Option, none, some, List, ◌∷◌, arith, Bytes,
  ltb, ◌==◌, ==_iff, Option-cases, length,
}
use mathlib.Core.Path.{subst}
use genshinimpact_nx.FakeFd.Model.{Kind, pipe_r, pipe_w, Pipe, OpenRef, State, Outcome, waits}
use genshinimpact_nx.FakeFd.Table.{Heap, update, bump, open_retain_locked, open_release_locked}
use genshinimpact_nx.FakeFd.Counts.{refs_of, Sound, released}
use genshinimpact_nx.FakeFd.References.{hit_self, retain_lem}
use genshinimpact_nx.FakeFd.Safety.{HasRoom}
use genshinimpact_nx.FakeFd.Transfers.{
  settle, resume_write, refuse_write, source_of, fakefd_operation_write,
}
use genshinimpact_nx.FakeFd.Window.{contents}
use genshinimpact_nx.FakeFd.Writes.{send, take-all}
use genshinimpact_nx.FakeFd.PipeWrites.{holding, held_object, resume_write-PipeWrite}

-- The bytes that the pipe at an address holds.
unfoldable pub pipe_view : State → ℕ → Option Bytes
pipe_view s a = elim (s.heap a) [ none ↦ none | some p ↦ some (contents p) ]

-- What a reference count is does not show in the bytes.
bump-contents : (by : ℕ) (k : Kind) (p : Pipe) → contents (bump by k p) ≡ contents p
unfolding contents
bump-contents by pipe_r p = refl
bump-contents by _ p = refl

released-contents : (k : Kind) (p q : Pipe) → released k p ≡ some q → contents q ≡ contents p
unfolding contents
released-contents pipe_r p q h = ground arith
released-contents _ p q h = ground arith

-- The object after a call has retained its description.
pub retained_object :
    (o : OpenRef) (heap h : Heap) (p : Pipe)
    → open_retain_locked o heap ≡ some h
    → heap o.pipe ≡ some p
    → h o.pipe ≡ some (bump 1 o.kind p)
unfolding open_retain_locked
retained_object o heap h p step there =
    let step' : some (update heap o.pipe (some (bump 1 o.kind p))) ≡ some h =
      rw (there, open_retain_locked) at step in
    let same : update heap o.pipe (some (bump 1 o.kind p)) ≡ h = cc in
    let here : (o.pipe == o.pipe) ≡ true = (==_iff o.pipe o.pipe).1 refl in
    ap (λ (g : Heap). g o.pipe) (sym same) ∙ rw here

released_object :
    (o : OpenRef) (heap h : Heap) (p : Pipe)
    → open_release_locked o heap ≡ some h
    → heap o.pipe ≡ some p
    → h o.pipe ≡ released o.kind p
unfolding open_release_locked
released_object o heap h p step there =
    let step' : some (update heap o.pipe (released o.kind p)) ≡ some h =
      rw (there, open_release_locked) at step in
    let same : update heap o.pipe (released o.kind p) ≡ h = cc in
    let here : (o.pipe == o.pipe) ≡ true = (==_iff o.pipe o.pipe).1 refl in
    ap (λ (g : Heap). g o.pipe) (sym same) ∙ rw here

-- However the call is settled, the pipe that is still referred to keeps its bytes.
pub settled_view :
    (s t : State) (o : OpenRef) (out : Outcome) (heap : Heap) (q : Pipe)
    → heap o.pipe ≡ some q
    → settle o out heap ≡ some t.heap
    → 0 < refs_of t.heap o
    → pipe_view t o.pipe ≡ some (contents q)
unfolding settle pipe_view
settled_view s t o (waits k) heap q there step live =
    let same : heap ≡ t.heap = cc in
    let there' : t.heap o.pipe ≡ some q = ap (λ (g : Heap). g o.pipe) (sym same) ∙ there in
    rw (there', pipe_view)
settled_view s t o out heap q there step live = elim (Option-cases (t.heap o.pipe)) [
  | inl e ↦ absurd (ground (arith, e))
  | inr (r, e) ↦
      let its : released o.kind q ≡ some r = sym (released_object o heap t.heap q step there) ∙ e in
      rw (e, pipe_view) (ap some (released-contents o.kind q r its))
]

pub update_self : (h : Heap) (a : ℕ) (p : Option Pipe) → update h a p a ≡ p
update_self h a p = let here : (a == a) ≡ true = (==_iff a a).1 refl in rw here

-- Whatever the outcome, the caller's own reference stays.
pub still_held :
    (t : State) (calls : List OpenRef) (o : OpenRef) (out : Outcome)
    → Sound t (holding out o (o ∷ calls))
    → 0 < refs_of t.heap o
still_held t calls o (waits k) v = omega (arith, v.counted o, hit_self o)
still_held t calls o out v = omega (arith, v.counted o, hit_self o)

-- What a write of `bytes` to the pipe `p` comes to.
abbrev pub sent : Pipe → Bytes → Outcome × Bytes
sent p bytes =
    send p.write_open.nonblock (ltb 0 p.readers) (p.capacity - p.len) (contents p) (length bytes)
      bytes 0

sent-bump : (k : Kind) (p : Pipe) (bytes : Bytes) → sent (bump 1 k p) bytes ≡ sent p bytes
unfolding contents
sent-bump pipe_r p bytes = refl
sent-bump _ p bytes = refl

module _ (s : State) (calls : List OpenRef) (o : OpenRef) (p : Pipe) (bytes : Bytes)
    (v : Sound s (o ∷ calls)) (room : HasRoom (o ∷ calls)) (kind : o.kind ≡ pipe_w)
    (there : s.heap o.pipe ≡ some p) (some_bytes : 0 < length bytes) where
  passes : refuse_write o.kind (some bytes) (length bytes) ≡ none
  unfolding refuse_write
  passes = rw kind (ground arith)

  source : source_of o.kind (some bytes) (length bytes) ≡ bytes
  source = rw kind (take-all (length bytes) bytes (omega arith))

  started :
      (h : Heap)
      → open_retain_locked o s.heap ≡ some h
      → fakefd_operation_write (some o) (some bytes) (length bytes) s
        ≡ resume_write o (length bytes) bytes 0 (record s { heap = h })
  unfolding fakefd_operation_write
  started h step =
      rw (there, passes, step)
        (ap (λ (b : Bytes). resume_write o (length bytes) b 0 (record s { heap = h })) source)

  -- A write to a pipe does what a bounded queue does with its bytes, keeps the books balanced, and
  -- leaves the description with the caller, and once more with the call if it waits.
  pub operation_write_lem :
      (t : State) × (fakefd_operation_write (some o) (some bytes) (length bytes) s
        ≡ some ((sent p bytes).0, t))
      × (pipe_view t o.pipe ≡ some (sent p bytes).1)
      × Sound t (holding (sent p bytes).0 o (o ∷ calls))
  operation_write_lem =
      let (q, there_q, w, held, live) = held_object s calls o v in
      let (h, step, x) = retain_lem s (o ∷ calls) v o live room in
      let there' = retained_object o s.heap h p step there in
      let r =
        resume_write-PipeWrite (record s { heap = h }) (o ∷ calls) o x (bump 1 o.kind p)
          (length bytes) bytes 0 kind there' (omega arith) in
      let out_is : r.outcome ≡ (sent p bytes).0 =
        r.outcome_is ∙ ap (λ (e : Outcome × Bytes). e.0) (sent-bump o.kind p bytes) in
      let held_is : contents r.written ≡ (sent p bytes).1 =
        r.contents_is ∙ ap (λ (e : Outcome × Bytes). e.1) (sent-bump o.kind p bytes) in
      (
        r.after,
        started h step ∙ (r.ends ∙ ap (λ (e : Outcome). some (e, r.after)) out_is),
        settled_view s r.after o r.outcome (update h o.pipe (some r.written)) r.written
              (update_self h o.pipe (some r.written)) r.settled
              (still_held r.after calls o r.outcome r.balanced)
            ∙ ap some held_is,
        subst (λ e. Sound r.after (holding e o (o ∷ calls))) out_is r.balanced,
      )
