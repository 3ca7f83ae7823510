-- ===== src/Broker/Ownership.antt =====
-- Giving pointers back: newlib never gets one that lies in the region of the pool.
use genshinimpact_nx.Base.{
  ℕ, ◌≡◌, refl, sym, ◌∙◌, ◌⊎◌, inl, inr, true, false, Option, none, some, arith, Bool-cases,
}
use genshinimpact_nx.Broker.Model.{Native, Backend, State}
use genshinimpact_nx.Broker.Entry.{hist_live_remove}
use genshinimpact_nx.Broker.Release.{free_native, wrap_free}

module _ {N Q : Type 0} (env : Backend N Q) where
  -- A block of newlib has a usable size.
  abbrev pub Block : ℕ → N → Type 0
  Block p n = (usable : ℕ) × (env.real_usable_size p n ≡ some usable)

  -- A block of newlib can be freed, and giving a pointer to the pool does not change its region.
  pub record IsBackend : Type 0 where
    pub free_block :
        (s : Native N) (p : ℕ) → Block p s.newlib → (t : Native N) × (env.real_free p s ≡ some t)
    pub release_region :
        (p a : ℕ) (q : Q) → env.pool_contains a (env.pool_release p q).1 ≡ env.pool_contains a q

  -- The address lies in the region of the pool, or is a block of newlib.
  abbrev pub Placed : ℕ → State N Q → Type 0
  Placed p s = (env.pool_contains p s.pool ≡ true) ⊎ Block p s.native.newlib

  -- The result of a call that frees.
  abbrev pub Done : Option (State N Q) → Type 0
  Done none = ⊥
  Done (some t) = Unit

  module _ (laws : IsBackend) where
    free_native-Done :
        (p : ℕ) (s : State N Q) → Block p s.native.newlib → Done (free_native env p s)
    unfolding free_native hist_live_remove
    free_native-Done p s (usable, known) =
        let (t, freed) = laws.free_block s.native p (usable, known) in
        rw (known, freed, free_native) tt

    -- A pointer that lies in the region of the pool, or is a block of newlib, can be freed, and one in
    -- the region never reaches newlib, whether the pool takes it back or not.
    pub wrap_free-Placed :
        (p : ℕ) (s : State N Q)
        → Placed p s
        → Done (wrap_free env (some p) s)
          × (env.pool_contains p s.pool ≡ true
              → (t : State N Q) × (wrap_free env (some p) s ≡ some t) × (t.native ≡ s.native))
    unfolding wrap_free
    wrap_free-Placed p s own = elim (Bool-cases (env.pool_release p s.pool).0) [
      | inl e ↦ rw (e, wrap_free) (tt, λ inside. (_, refl, refl))
      | inr e ↦ elim (Bool-cases (env.pool_contains p (env.pool_release p s.pool).1)) [
        | inl h ↦ rw (e, h, wrap_free) (tt, λ inside. (_, refl, refl))
        | inr h ↦
            let outside : env.pool_contains p s.pool ≡ false =
              sym (laws.release_region p p s.pool) ∙ h in
            rw (e, h, wrap_free)
              (
                elim own [
                  | inl inside ↦ absurd (ground (arith, inside, outside))
                  | inr block ↦ free_native-Done p _ block
                ],
                λ inside. absurd (ground (arith, inside, outside)),
              )
      ]
    ]
