-- ===== src/FakeFd/Counts.antt =====
-- What holds of source/fakefd.c between calls: every open description is counted once for each
-- descriptor, alias and call in progress that refers to it, and is freed with the last of them.
use genshinimpact_nx.Base.{
  ℕ, ◌+◌, ◌-◌, ◌^◌, ◌≤◌, ◌<◌, ◌≡◌, ◌≢◌, ◌⊎◌, Option, none, some, List, [], ◌∷◌, arith, ◌==◌,
  if◌then◌else◌, length,
}
use genshinimpact_nx.FakeFd.Model.{
  max_fake_fds, max_fake_aliases, uint64_max, Kind, pipe_r, same_kind, Pipe, OpenRef, same_open,
  FakeFd, FakeAlias, State,
}
use genshinimpact_nx.FakeFd.Table.{Heap, get_open, bump, shut}
use genshinimpact_nx.FakeFd.Chunks.{IsRing}

-- 1 if the pointer is to the description `o`.
abbrev pub hit : OpenRef → Option OpenRef → ℕ
hit o none = 0
hit o (some r) = if same_open o r then 1 else 0

abbrev pub count_fds : OpenRef → List FakeFd → ℕ
count_fds o [] = 0
count_fds o (d ∷ ds) = hit o d.ref + count_fds o ds

abbrev pub count_aliases : OpenRef → List FakeAlias → ℕ
count_aliases o [] = 0
count_aliases o (a ∷ as') = hit o a.descriptor.ref + count_aliases o as'

abbrev pub count_calls : OpenRef → List OpenRef → ℕ
count_calls o [] = 0
count_calls o (r ∷ rs) = hit o (some r) + count_calls o rs

abbrev pub refs_in : Kind → Option Pipe → ℕ
refs_in k none = 0
refs_in k (some p) = (get_open k p).refs

abbrev pub refs_of : Heap → OpenRef → ℕ
refs_of h o = refs_in o.kind (h o.pipe)

-- A pipe has readers and writers exactly while it has references of that kind; an event counter or
-- a random source has neither. `Alone` says which of the three the object is.
abbrev pub Alone : Pipe → Type 0
Alone p =
    ((p.event_open.refs ≡ 0) × (p.random_open.refs ≡ 0) × IsRing p)
    ⊎ (((p.readers ≡ 0) × (p.writers ≡ 0) × (p.random_open.refs ≡ 0))
        ⊎ ((p.readers ≡ 0) × (p.writers ≡ 0) × (p.event_open.refs ≡ 0)))

pub record IsPipe (p : Pipe) : Type 0 where
  pub readers_live : p.readers ≡ 0 → p.read_open.refs ≡ 0
  pub readers_gone : p.read_open.refs ≡ 0 → p.readers ≡ 0
  pub writers_live : p.writers ≡ 0 → p.write_open.refs ≡ 0
  pub writers_gone : p.write_open.refs ≡ 0 → p.writers ≡ 0
  pub alone : Alone p
  pub event_low : p.event_value < uint64_max

abbrev pub IsObject : Option Pipe → Type 0
IsObject none = Unit
IsObject (some p) = IsPipe p

-- An alias in use has a description, any other slot has none.
abbrev pub IsAlias : FakeAlias → Type 0
IsAlias a = (a.used ≡ 1 → a.descriptor.ref ≢ none) × (a.used ≢ 1 → a.descriptor.ref ≡ none)

abbrev pub AllAliases : List FakeAlias → Type 0
AllAliases [] = Unit
AllAliases (a ∷ rest) = IsAlias a × AllAliases rest

-- `calls` are the descriptions that the calls in progress hold.
pub record Sound (s : State) (calls : List OpenRef) : Type 0 where
  pub fds_length : length s.fds ≡ max_fake_fds
  pub aliases_length : length s.aliases ≡ max_fake_aliases
  pub calls_bound : length calls < 2 ^ 31
  pub counted :
      (o : OpenRef)
      → refs_of s.heap o ≡ count_fds o s.fds + count_aliases o s.aliases + count_calls o calls
  pub objects : (a : ℕ) → IsObject (s.heap a)
  pub unused : (a : ℕ) → s.fresh ≤ a → s.heap a ≡ none
  pub aliased : AllAliases s.aliases

-- The object after a release, as `open_release_locked` leaves it.
abbrev pub released : Kind → Pipe → Option Pipe
released k p =
    let q = bump (2 ^ 32 - 1) k p in if (get_open k q).refs == 0 then shut k q else some q

pub released-refs :
    (k j : Kind) (p : Pipe)
    → IsPipe p
    → 0 < (get_open k p).refs
    → (get_open k p).refs < 2 ^ 32
    → refs_in j (released k p) + (if same_kind j k then 1 else 0) ≡ (get_open j p).refs
released-refs pipe_r pipe_r p v lo hi = ground arith
released-refs k j p v lo hi = ground arith

pub released-IsObject :
    (k : Kind) (p : Pipe)
    → IsPipe p
    → 0 < (get_open k p).refs
    → (get_open k p).refs < 2 ^ 32
    → IsObject (released k p)
released-IsObject pipe_r p v lo hi = ground arith
released-IsObject k p v lo hi = ground arith
