-- ===== src/FakeFd/Frames.antt =====
-- Reads and writes move bytes and leave the ends of a pipe alone, so they keep the books balanced.
use genshinimpact_nx.Base.{
  ℕ, zero, suc, ◌+◌, ◌-◌, ◌%◌, ◌<◌, ◌≡◌, refl, ap, ◌∙◌, inl, inr, Bool, Option, none, some, arith,
  Bytes, ◌==◌, Bool-cases, length, take, drop,
}
use genshinimpact_nx.FakeFd.Model.{Kind, pipe_r, pipe_w, event, random, Pipe, Outcome}
use genshinimpact_nx.FakeFd.Table.{get_open}
use genshinimpact_nx.FakeFd.Counts.{Alone, IsPipe}
use genshinimpact_nx.FakeFd.Ring.{write_chunk, write_loop, read_loop}
use genshinimpact_nx.FakeFd.Chunks.{IsRing}

-- Two states of an object with the same ends and counter.
pub record SameEnds (p q : Pipe) : Type 0 where
  pub readers_same : q.readers ≡ p.readers
  pub writers_same : q.writers ≡ p.writers
  pub opens_same : (k : Kind) → get_open k q ≡ get_open k p
  pub event_same : q.event_value ≡ p.event_value

pub SameEnds-refl : (p : Pipe) → SameEnds p p
SameEnds-refl p = record {
  readers_same = refl;
  writers_same = refl;
  opens_same = λ k. refl;
  event_same = refl;
}

SameEnds-trans : (p q r : Pipe) → SameEnds p q → SameEnds q r → SameEnds p r
SameEnds-trans p q r a b = record {
  readers_same = b.readers_same ∙ a.readers_same;
  writers_same = b.writers_same ∙ a.writers_same;
  opens_same = λ k. b.opens_same k ∙ a.opens_same k;
  event_same = b.event_same ∙ a.event_same;
}

write_chunk-SameEnds : (p : Pipe) (bs : Bytes) → SameEnds p (write_chunk p bs)
unfolding write_chunk
write_chunk-SameEnds p bs = record {
  readers_same = refl;
  writers_same = refl;
  opens_same = elim [ pipe_r ↦ refl | pipe_w ↦ refl | event ↦ refl | random ↦ refl ];
  event_same = refl;
}

-- What a finished loop did to its pipe.
abbrev pub Framed : Pipe → Option (Outcome × Pipe) → Type 0
Framed p none = Unit
Framed p (some (out, q)) = SameEnds p q

Framed-trans : (p q : Pipe) (r : Option (Outcome × Pipe)) → SameEnds p q → Framed q r → Framed p r
Framed-trans p q none a b = tt
Framed-trans p q (some (out, r)) a b = SameEnds-trans p q r a b

pub write_loop-Framed :
    (f : ℕ) (nonblock : Bool) (n : ℕ) (p : Pipe) (rest : Bytes) (wrote : ℕ)
    → Framed p (write_loop f nonblock n p rest wrote)
unfolding write_loop
write_loop-Framed zero nonblock n p rest wrote = tt
write_loop-Framed (suc f) nonblock n p rest wrote =
    let chunk = take (p.capacity - p.len) rest in
    let later = Framed-trans p (write_chunk p chunk) _ (write_chunk-SameEnds p chunk) (
      write_loop-Framed f nonblock n (write_chunk p chunk) (drop (p.capacity - p.len) rest)
        (wrote + length chunk)) in
    ground (arith, later, SameEnds-refl p, write_chunk-SameEnds p chunk)

popped-SameEnds :
    (p : Pipe) → SameEnds p (record p { head = (p.head + 1) % p.capacity; len = p.len - 1 })
popped-SameEnds p = record {
  readers_same = refl;
  writers_same = refl;
  opens_same = elim [ pipe_r ↦ refl | pipe_w ↦ refl | event ↦ refl | random ↦ refl ];
  event_same = refl;
}

pub read_loop-SameEnds : (n : ℕ) (p : Pipe) → SameEnds p (read_loop n p).1
unfolding read_loop
read_loop-SameEnds zero p = SameEnds-refl p
read_loop-SameEnds (suc n) p =
    let popped : Pipe = record p { head = (p.head + 1) % p.capacity; len = p.len - 1 } in
    let later = SameEnds-trans p popped _ (popped-SameEnds p) (read_loop-SameEnds n popped) in
    elim (Bool-cases (p.len == 0)) [ inl e ↦ rw e (SameEnds-refl p) | inr e ↦ rw e later ]

-- An object with the same ends is as good, if its buffer is.
pub IsPipe-same : (p q : Pipe) → IsPipe p → SameEnds p q → (IsRing p → IsRing q) → IsPipe q
IsPipe-same p q v e ring =
    let a = e.opens_same pipe_r in
    let b = e.opens_same pipe_w in
    let c = e.opens_same event in
    let d = e.opens_same random in
    record {
      readers_live = λ h. ground (arith, e, v);
      readers_gone = λ h. ground (arith, e, v);
      writers_live = λ h. ground (arith, e, v);
      writers_gone = λ h. ground (arith, e, v);
      alone = same_alone v.alone;
      event_low = omega (arith, e.event_same, v.event_low);
    }
  where
    same_alone : Alone p → Alone q
    same_alone (inl (x, y, r)) = inl (
      ap (λ o. o.refs) (e.opens_same event) ∙ x,
      ap (λ o. o.refs) (e.opens_same random) ∙ y,
      ring r,
    )
    same_alone (inr (inl (x, y, z))) =
        inr
          (inl (e.readers_same ∙ x, e.writers_same ∙ y, ap (λ o. o.refs) (e.opens_same random) ∙ z))
    same_alone (inr (inr (x, y, z))) =
        inr
          (inr (e.readers_same ∙ x, e.writers_same ∙ y, ap (λ o. o.refs) (e.opens_same event) ∙ z))

-- A pipe end with a reference is the end of a pipe: its buffer is in order.
pub IsRing-of_reader : (p : Pipe) → IsPipe p → 0 < p.read_open.refs → IsRing p
IsRing-of_reader p v h = by_kind v.alone
  where
    by_kind : Alone p → IsRing p
    by_kind (inl (x, y, r)) = r
    by_kind (inr (inl (x, y, z))) = absurd (omega (arith, v.readers_live x))
    by_kind (inr (inr (x, y, z))) = absurd (omega (arith, v.readers_live x))

pub IsRing-of_writer : (p : Pipe) → IsPipe p → 0 < p.write_open.refs → IsRing p
IsRing-of_writer p v h = by_kind v.alone
  where
    by_kind : Alone p → IsRing p
    by_kind (inl (x, y, r)) = r
    by_kind (inr (inl (x, y, z))) = absurd (omega (arith, v.writers_live y))
    by_kind (inr (inr (x, y, z))) = absurd (omega (arith, v.writers_live y))
