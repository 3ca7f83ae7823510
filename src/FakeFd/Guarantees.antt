-- ===== src/FakeFd/Guarantees.antt =====
-- What the users of a pipe and of an event counter rely on.
use genshinimpact_nx.Base.{
  ℕ, zero, suc, ◌+◌, ◌*◌, ◌/◌, ◌^◌, ◌≤◌, ◌<◌, ◌≡◌, refl, ap, ◌∙◌, ◌⊎◌, inl, inr, Bool, Option, some,
  List, ◌∷◌, ◌++◌, arith, Bytes, ltb, if◌then◌else◌, length,
}
use genshinimpact_nx.FakeFd.Model.{
  pipe_atomic_cap, uint64_max, eagain, epipe, pipe_w, Pipe, OpenRef, State, Outcome, returns, fails,
  waits,
}
use genshinimpact_nx.FakeFd.Counts.{Sound}
use genshinimpact_nx.FakeFd.Safety.{HasRoom}
use genshinimpact_nx.FakeFd.Transfers.{
  to_bytes, of_bytes, add_event, fakefd_operation_write, take_event,
}
use genshinimpact_nx.FakeFd.Window.{contents}
use genshinimpact_nx.FakeFd.Chunks.{IsRing}
use genshinimpact_nx.FakeFd.Writes.{send}
use genshinimpact_nx.FakeFd.Frames.{IsRing-of_writer}
use genshinimpact_nx.FakeFd.PipeWrites.{held_object}
use genshinimpact_nx.FakeFd.WriteCall.{pipe_view, sent, operation_write_lem}

-- A write that took nothing: it failed, or waits to begin.
abbrev pub TookNothing : Outcome → Type 0
TookNothing out = (out ≡ fails eagain) ⊎ ((out ≡ fails epipe) ⊎ (out ≡ waits 0))

sent_atomic :
    (p : Pipe) (bytes : Bytes)
    → IsRing p
    → 0 < length bytes
    → length bytes ≤ pipe_atomic_cap
    → (((sent p bytes).0 ≡ returns (length bytes)) × ((sent p bytes).1 ≡ contents p ++ bytes))
      ⊎ (TookNothing (sent p bytes).0 × ((sent p bytes).1 ≡ contents p))
unfolding send
sent_atomic p bytes v some_bytes small = ground (arith, v.page)

-- The result of a call whose outcome and bytes are known.
abbrev pub Ends : Option (Outcome × State) → ℕ → Outcome → Bytes → Type 0
Ends r a out bytes = (t : State) × (r ≡ some (out, t)) × (pipe_view t a ≡ some bytes)

-- A write of at most PIPE_ATOMIC_CAP bytes puts all of them behind what the pipe holds, or none.
pub write_atomic :
    (s : State) (calls : List OpenRef) (o : OpenRef) (p : Pipe) (bytes : Bytes)
    → Sound s (o ∷ calls)
    → HasRoom (o ∷ calls)
    → o.kind ≡ pipe_w
    → s.heap o.pipe ≡ some p
    → 0 < length bytes
    → length bytes ≤ pipe_atomic_cap
    → let r = fakefd_operation_write (some o) (some bytes) (length bytes) s in
      Ends r o.pipe (returns (length bytes)) (contents p ++ bytes)
      ⊎ ((out : Outcome) × TookNothing out × Ends r o.pipe out (contents p))
write_atomic s calls o p bytes v room kind there some_bytes small =
    let (t, ran, holds, balanced) =
      operation_write_lem s calls o p bytes v room kind there some_bytes in
    let (q, there_q, w, held, live) = held_object s calls o v in
    let ring =
      IsRing-of_writer p (rw there at (v.objects o.pipe)) (ground (arith, there, live, kind)) in
    by_case t ran holds (sent_atomic p bytes ring some_bytes small)
  where
    by_case :
        (t : State)
        → fakefd_operation_write (some o) (some bytes) (length bytes) s ≡ some ((sent p bytes).0, t)
        → pipe_view t o.pipe ≡ some (sent p bytes).1
        → (((sent p bytes).0 ≡ returns (length bytes)) × ((sent p bytes).1 ≡ contents p ++ bytes))
          ⊎ (TookNothing (sent p bytes).0 × ((sent p bytes).1 ≡ contents p))
        → let r = fakefd_operation_write (some o) (some bytes) (length bytes) s in
          Ends r o.pipe (returns (length bytes)) (contents p ++ bytes)
          ⊎ ((out : Outcome) × TookNothing out × Ends r o.pipe out (contents p))
    by_case t ran holds (inl (all, added)) =
        inl (t, ran ∙ ap (λ (out : Outcome). some (out, t)) all, holds ∙ ap some added)
    by_case t ran holds (inr (nothing, kept)) =
        inr ((sent p bytes).0, nothing, (t, ran, holds ∙ ap some kept))

-- `write` on an event counter adds its value if the sum stays below the largest `uint64_t`, and
-- otherwise changes nothing and fails or waits.
pub event_write :
    (nonblock : Bool) (value : ℕ) (p : Pipe)
    → p.event_value < uint64_max
    → value < uint64_max
    → add_event nonblock value p ≡ (
        if ltb (p.event_value + value) uint64_max
        then (returns 8, record p { event_value = p.event_value + value })
        else ((if nonblock then fails eagain else waits 0), p))
unfolding add_event
event_write nonblock value p low small = ground arith

pub of_bytes-to_bytes : (n v : ℕ) → v < 256 ^ n → of_bytes (to_bytes n v) ≡ v
unfolding of_bytes to_bytes
of_bytes-to_bytes zero v h = omega arith
of_bytes-to_bytes (suc n) v h =
    let e : 256 ^ suc n ≡ 256 * 256 ^ n = omega arith in
    omega (arith, of_bytes-to_bytes n (v / 256) (omega arith))

length-to_bytes : (n v : ℕ) → length (to_bytes n v) ≡ n
unfolding to_bytes
length-to_bytes zero v = refl
length-to_bytes (suc n) v = ap suc (length-to_bytes n (v / 256))

-- `read` on an event counter takes the whole value, or one at a time from a semaphore: what the eight
-- bytes say and what is left make up the value before.
pub event_read :
    (nonblock : Bool) (p : Pipe)
    → 0 < p.event_value
    → p.event_value < uint64_max
    → let r = take_event nonblock p in
      (r.0 ≡ returns 8)
      × (length r.1 ≡ 8)
      × (of_bytes r.1 + r.2.event_value ≡ p.event_value)
      × (of_bytes r.1 ≡ (if p.event_semaphore then 1 else p.event_value))
unfolding take_event
event_read nonblock p some_value low = ground (
  arith,
  of_bytes-to_bytes 8 1 (omega arith),
  of_bytes-to_bytes 8 p.event_value (omega arith),
  length-to_bytes 8 1,
  length-to_bytes 8 p.event_value,
)
