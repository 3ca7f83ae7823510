-- ===== src/Broker/Entry.antt =====
-- The wrapped allocation functions of source/memory_broker.c.
use genshinimpact_nx.Base.{
  ℕ, ◌-◌, ◌*◌, bit_and, Bool, true, not, ◌&&◌, ◌||◌, Option, none, some, ◌==◌, if◌then◌else◌, ◌>>=◌,
}
use genshinimpact_nx.Broker.Counters.{
  hist_record_request, hist_live_add_size, hist_live_remove_size,
}
use genshinimpact_nx.Broker.Model.{Backend, State, clear_bytes}

-- `OC_BROKER_LARGE_ALLOC_BYTES`, `_Alignof(max_align_t)`, `sizeof(void *)`
abbrev pub large_alloc_bytes : ℕ
large_alloc_bytes = 1024 * 1024

abbrev pub max_align : ℕ
max_align = 16

abbrev pub pointer_size : ℕ
pointer_size = 8

abbrev pub enomem : ℕ
enomem = 12

abbrev pub einval : ℕ
einval = 22

unfoldable pub valid_power_of_two : ℕ → Bool
valid_power_of_two value = not (value == 0) && bit_and value (value - 1) == 0

module _ {N Q : Type 0} where
  abbrev pub with_errno : ℕ → State N Q → State N Q
  with_errno e s = record s { native = record (s.native) { errno = e } }

  abbrev pub record_request : ℕ → Bool → State N Q → State N Q
  record_request size fell_back s = record s { hist = hist_record_request size fell_back s.hist }

module _ {N Q : Type 0} (env : Backend N Q) where
  -- The guard is taken and given back around the allocation, so it is the same afterwards.
  unfoldable pub host_pool_fallback : ℕ → ℕ → Bool → State N Q → Option ℕ × State N Q
  host_pool_fallback size alignment clear s =
      let (result, e, pool) = env.pool_alloc size alignment s.native.errno s.pool in
      let t : State N Q = record s { pool = pool; native = record (s.native) { errno = e } } in
      if size == 0 || not (s.depth == 0) then (none, s) else elim result [
        | none ↦ (none, t)
        | some p ↦ (
          some p,
          if clear
              then record t { native = record (t.native) { mem = clear_bytes p size t.native.mem } }
              else t,
        )
      ]

  unfoldable pub hist_live_add : ℕ → State N Q → Option (State N Q)
  hist_live_add p s = do
    usable ← env.real_usable_size p s.native.newlib
    some (record s { hist = hist_live_add_size usable s.hist })

  unfoldable pub hist_live_remove : ℕ → State N Q → Option (State N Q)
  hist_live_remove p s = do
    usable ← env.real_usable_size p s.native.newlib
    some (record s { hist = hist_live_remove_size usable s.hist })

  unfoldable pub host_pool_route : ℕ → ℕ → Bool → State N Q → Option ℕ × State N Q
  host_pool_route size alignment clear s =
      let r = host_pool_fallback size alignment clear s in
      elim r.0 [ none ↦ r | some p ↦ (some p, record_request size true r.1) ]
