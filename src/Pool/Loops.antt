-- ===== src/Pool/Loops.antt =====
-- The commit's loops: all segments of a run are mapped, or those that were mapped before.
use genshinimpact_nx.Base.{
  ℕ, zero, suc, ◌+◌, ◌≤◌, ◌<◌, ◌≡◌, refl, sym, ap, ◌∙◌, inl, inr, Bool, true, false, not, ◌&&◌,
  ◌||◌, some, arith, ◌==◌, ==_iff, Bool-cases,
}
use genshinimpact_nx.Pool.Donor.{Kernel}
use genshinimpact_nx.Pool.Backing.{Arena}
use genshinimpact_nx.Pool.Mapped.{IsKernel, Undoes}
use genshinimpact_nx.Pool.Segments.{
  segment_address, clear_segment, unmap_segment, undo_segment, undo_segments, map_segment,
  map_segments,
}
use genshinimpact_nx.Pool.Runs.{in_run}
use genshinimpact_nx.Pool.Backed.{IsBacked, SameArena, SameArena-trans}
use genshinimpact_nx.Pool.Backing.{segment_bytes}
use genshinimpact_nx.Pool.Unmapping.{unmap_segment_lem}
use genshinimpact_nx.Pool.Commit.{Stepped, map_segment_lem}

-- The segments are undone that are new and in the run.
record Undone {K : Type 0} (env : Kernel K) (safe : IsKernel env) (s : Arena K) (newly : ℕ → Bool)
    (g count : ℕ) (t : Arena K) : Type 0 where
  backed : IsBacked env safe t
  same : SameArena s t
  mapped : (a : ℕ) → t.segment_mapped a ≡ (s.segment_mapped a && not (newly a && in_run g count a))

-- The result of the loop: `before` are the segments that were mapped when it began.
pub record Committed {K : Type 0} (env : Kernel K) (safe : IsKernel env) (before : ℕ → Bool)
    (first total : ℕ) (s : Arena K) (r : Bool × Arena K) : Type 0 where
  pub backed : IsBacked env safe r.1
  pub same : SameArena s r.1
  pub all_mapped : r.0 ≡ true → (a : ℕ) → r.1.segment_mapped a ≡ (before a || in_run first total a)
  pub as_before : r.0 ≡ false → (a : ℕ) → r.1.segment_mapped a ≡ before a

-- A segment that is new is mapped; without those that are new the rest is as before.
new_held : (x y b n k : Bool) → x ≡ y → y ≡ (b || n) → k ≡ n → k ≡ true → x ≡ true
new_held x y b n k same tracked same_new new = ground (arith, same, tracked, same_new, new)

new_gone :
    (x y b n k run : Bool)
    → x ≡ y
    → y ≡ (b || n)
    → k ≡ n
    → (n ≡ true → (b ≡ false) × (run ≡ true))
    → (x && not (k && run)) ≡ b
new_gone x y b false k run same tracked same_new only = ground (arith, same, tracked, same_new)
new_gone x y b true k run same tracked same_new only =
    let (old, inside) = only refl in ground (arith, same, tracked, same_new, old, inside)

run_mapped :
    (y b n run : Bool)
    → y ≡ (b || n)
    → (n ≡ true → (b ≡ false) × (run ≡ true))
    → (run ≡ true → y ≡ true)
    → y ≡ (b || run)
run_mapped y b false false tracked only done = ground (arith, tracked)
run_mapped y b false true tracked only done = done refl ∙ ground arith
run_mapped y b true run tracked only done =
    let (old, inside) = only refl in ground (arith, tracked, old, inside)

-- The segments that are mapped and those that are new, one round later.
tracked_next :
    (m before newly : ℕ → Bool) (g a : ℕ)
    → ((a : ℕ) → m a ≡ (before a || newly a))
    → (m a || a == g) ≡ (before a || (newly a || (a == g && not (m g))))
tracked_next m before newly g a tracked = elim (Bool-cases (a == g)) [
  | inl e ↦
      let same = (==_iff a g).0 e in
      let here = ap m same in let old = ap before same in ground (arith, tracked a, e, here, old)
  | inr e ↦ ground (arith, tracked a, e)
]

new_next :
    (m before newly : ℕ → Bool) (first total g a : ℕ)
    → ((a : ℕ) → m a ≡ (before a || newly a))
    → ((a : ℕ) → newly a ≡ true → (before a ≡ false) × (in_run first total a ≡ true))
    → first ≤ g
    → g < first + total
    → (newly a || (a == g && not (m g))) ≡ true
    → (before a ≡ false) × (in_run first total a ≡ true)
new_next m before newly first total g a tracked new_only low high h = elim (Bool-cases (newly a)) [
  | inl e ↦ new_only a e
  | inr e ↦
      let equal : (a == g) ≡ true = ground (arith, h, e) in
      let same = (==_iff a g).0 equal in
      let fresh : m g ≡ false = ground (arith, h, e) in
      let not_before : before g ≡ false = ground (arith, fresh, tracked g) in
      (ap before same ∙ not_before, ground (arith, same))
]

module _ {K : Type 0} (env : Kernel K) (safe : IsKernel env) (undoes : Undoes env safe) where
  undo_segment-run :
      (g : ℕ) (newly : ℕ → Bool) (s t : Arena K)
      → newly g ≡ true
      → unmap_segment env g s ≡ some (0, t)
      → undo_segment env g newly s ≡ some (clear_segment g t)
  unfolding undo_segment
  undo_segment-run g newly s t new run = rw (new, run) refl

  undo_segment-not :
      (g : ℕ) (newly : ℕ → Bool) (s : Arena K)
      → newly g ≡ false
      → undo_segment env g newly s ≡ some s
  unfolding undo_segment
  undo_segment-not g newly s old = rw old refl

  abbrev StepUndone : (s : Arena K) (newly : ℕ → Bool) (g : ℕ) (t : Arena K) → Type 0
  StepUndone s newly g t =
      IsBacked env safe t
      × SameArena s t
      × ((a : ℕ) → t.segment_mapped a ≡ (s.segment_mapped a && not (newly g && a == g)))

  -- An alias that is there is taken away.
  unmapped_always :
      (s : Arena K) (g : ℕ)
      → IsBacked env safe s
      → s.segment_mapped g ≡ true
      → (t : Arena K) × (unmap_segment env g s ≡ some (0, t))
        × IsBacked env safe (clear_segment g t)
        × SameArena s t
        × (t.segment_mapped ≡ s.segment_mapped)
  unmapped_always s g backed mapped =
      let (r, run, u) = unmap_segment_lem env safe s g backed mapped in
      elim u.outcome [
        | inl (done, clear) ↦
            (r.1, run ∙ ap (λ code. some (code, r.1)) done, clear, u.same, u.same_mapped)
        | inr (failed, still, refusal) ↦
            let done =
              undoes (segment_address g s) refusal.source segment_bytes refusal.kernel
                refusal.there in
            absurd (ground (arith, done, refusal.refused))
      ]

  undo_segment_lem :
      (g : ℕ) (newly : ℕ → Bool) (s : Arena K)
      → IsBacked env safe s
      → (newly g ≡ true → s.segment_mapped g ≡ true)
      → (t : Arena K) × (undo_segment env g newly s ≡ some t) × StepUndone s newly g t
  undo_segment_lem g newly s backed held = elim (Bool-cases (newly g)) [
    | inl e ↦
        let (t, run, clear, same, mapped) = unmapped_always s g backed (held e) in
        (
          clear_segment g t,
          undo_segment-run g newly s t e run,
          (
            clear,
            record {
              same_base = same.same_base;
              same_pages = same.same_pages;
              same_live = same.same_live;
            },
            λ a. rw mapped (ground (arith, e)),
          ),
        )
    | inr e ↦ (
      s,
      undo_segment-not g newly s e,
      (
        backed,
        record { same_base = refl; same_pages = refl; same_live = refl },
        λ a. ground (arith, e),
      ),
    )
  ]

  -- What the first step and the later ones undo.
  both_gone :
      (s t : Arena K) (newly : ℕ → Bool) (g count a : ℕ)
      → t.segment_mapped a ≡ (s.segment_mapped a && not (newly g && a == g))
      → (t.segment_mapped a && not (newly a && in_run (g + 1) count a))
        ≡ (s.segment_mapped a && not (newly a && in_run g (suc count) a))
  both_gone s t newly g count a h = elim (Bool-cases (a == g)) [
    | inl e ↦
        let here : newly a ≡ newly g = ap newly ((==_iff a g).0 e) in ground (arith, h, e, here)
    | inr e ↦ ground (arith, h, e)
  ]

  undo_segments_lem :
      (count g : ℕ) (newly : ℕ → Bool) (s : Arena K)
      → IsBacked env safe s
      → ((a : ℕ) → g ≤ a → newly a ≡ true → s.segment_mapped a ≡ true)
      → (t : Arena K) × (undo_segments env count g newly s ≡ some t)
        × Undone env safe s newly g count t
  unfolding undo_segments
  undo_segments_lem zero g newly s backed held = (
    s,
    refl,
    record {
      backed = backed;
      same = record { same_base = refl; same_pages = refl; same_live = refl };
      mapped = λ a. ground arith;
    },
  )
  undo_segments_lem (suc count) g newly s backed held =
      let (t, run, (more, same, mapped)) =
        undo_segment_lem g newly s backed (held g (omega arith)) in
      let (u, run2, undone) =
        undo_segments_lem count (g + 1) newly t more
          (λ a above new. mapped a ∙ ground (arith, held a (omega arith) new)) in
      (
        u,
        rw (run, run2) refl,
        record {
          backed = undone.backed;
          same = SameArena-trans env safe s t u same undone.same;
          mapped = λ a. undone.mapped a ∙ both_gone s t newly g count a (mapped a);
        },
      )

  map_segments-stop :
      (first total count g : ℕ) (newly : ℕ → Bool) (s : Arena K) (r : Bool × (ℕ → Bool) × Arena K)
      (t : Arena K)
      → map_segment env g newly s ≡ some r
      → r.0 ≡ false
      → undo_segments env total first r.1 r.2 ≡ some t
      → map_segments env first total (suc count) g newly s ≡ some (false, t)
  unfolding map_segments
  map_segments-stop first total count g newly s r t run stop undone = rw (run, stop, undone) refl

  map_segments-go :
      (first total count g : ℕ) (newly : ℕ → Bool) (s : Arena K) (r : Bool × (ℕ → Bool) × Arena K)
      → map_segment env g newly s ≡ some r
      → r.0 ≡ true
      → map_segments env first total (suc count) g newly s
        ≡ map_segments env first total count (g + 1) r.1 r.2
  unfolding map_segments
  map_segments-go first total count g newly s r run go = rw (run, go) refl

  -- What holds before each round: `newly` are the segments of the run that the loop has mapped.
  pub record Round (before newly : ℕ → Bool) (first total g : ℕ) (s : Arena K) : Type 0 where
    pub backed : IsBacked env safe s
    pub tracked : (a : ℕ) → s.segment_mapped a ≡ (before a || newly a)
    pub new_only : (a : ℕ) → newly a ≡ true → (before a ≡ false) × (in_run first total a ≡ true)
    pub done : (a : ℕ) → first ≤ a → a < g → s.segment_mapped a ≡ true

  Round-next :
      (before newly : ℕ → Bool) (first total g : ℕ) (s : Arena K) (r : Bool × (ℕ → Bool) × Arena K)
      → Round before newly first total g s
      → Stepped env safe s g newly r
      → r.0 ≡ true
      → first ≤ g
      → g < first + total
      → Round before r.1 first total (g + 1) r.2
  Round-next before newly first total g s r round step go low high = record {
    backed = step.backed;
    tracked = λ a.
        step.mapped go a
        ∙ tracked_next s.segment_mapped before newly g a round.tracked
        ∙ ap (λ b. before a || b) (sym (step.new go a));
    new_only = λ a new.
        new_next s.segment_mapped before newly first total g a round.tracked round.new_only low high
          (sym (step.new go a) ∙ new);
    done = λ a above below. step.mapped go a ∙ ground (arith, round.done a above);
  }

  pub map_segments_lem :
      (before : ℕ → Bool) (first total count g : ℕ) (newly : ℕ → Bool) (s : Arena K)
      → Round before newly first total g s
      → first ≤ g
      → g + count ≡ first + total
      → (r : Bool × Arena K) × (map_segments env first total count g newly s ≡ some r)
        × Committed env safe before first total s r
  unfolding map_segments
  map_segments_lem before first total zero g newly s round low end = (
    (true, s),
    refl,
    record {
      backed = round.backed;
      same = record { same_base = refl; same_pages = refl; same_live = refl };
      all_mapped = λ _ a.
          run_mapped (s.segment_mapped a) (before a) (newly a) (in_run first total a)
            (round.tracked a) (round.new_only a)
            (λ h. round.done a (ground (arith, h)) (ground (arith, h)));
      as_before = λ h. absurd (ground (arith, h));
    },
  )
  map_segments_lem before first total (suc count) g newly s round low end =
      let (r, run, step) = map_segment_lem env safe undoes g newly s round.backed in
      elim (Bool-cases r.0) [
        | inl go ↦
            let (q, run2, committed) =
              map_segments_lem before first total count (g + 1) r.1 r.2
                (Round-next before newly first total g s r round step go low (omega arith))
                (omega arith) (omega arith) in
            (
              q,
              map_segments-go first total count g newly s r run go ∙ run2,
              record {
                backed = committed.backed;
                same = SameArena-trans env safe s r.2 q.1 step.same committed.same;
                all_mapped = committed.all_mapped;
                as_before = committed.as_before;
              },
            )
        | inr stop ↦
            let (same_mapped, same_newly) = step.stopped stop in
            let (t, undone_run, undone) =
              undo_segments_lem total first r.1 r.2 step.backed (λ a _ new.
                new_held (r.2.segment_mapped a) (s.segment_mapped a) (before a) (newly a) (r.1 a)
                  (ap (λ m. m a) same_mapped) (round.tracked a) (ap (λ m. m a) same_newly) new) in
            (
              (false, t),
              map_segments-stop first total count g newly s r t run stop undone_run,
              record {
                backed = undone.backed;
                same = SameArena-trans env safe s r.2 t step.same undone.same;
                all_mapped = λ h. absurd (ground (arith, h));
                as_before = λ _ a.
                    undone.mapped a
                    ∙ new_gone (r.2.segment_mapped a) (s.segment_mapped a) (before a) (newly a)
                        (r.1 a) (in_run first total a) (ap (λ m. m a) same_mapped) (round.tracked a)
                        (ap (λ m. m a) same_newly) (round.new_only a);
              },
            )
      ]
