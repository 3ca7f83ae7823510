-- ===== src/FakeFd/Lookup.antt =====
-- What the searches of the descriptor tables find.
use genshinimpact_nx.Base.{
  ℕ, zero, suc, ◌+◌, ◌-◌, ◌≤◌, ◌<◌, ◌≡◌, refl, ap, ◌∙◌, inl, inr, Bool, true, false, ◌&&◌, Option,
  none, some, List, [], ◌∷◌, arith, ℤ, leb, Bool-cases, Option-cases, length, get_elem?, ◌>>=◌,
  >>=-eq-some, same_int,
}
use mathlib.Core.Path.{subst}
use genshinimpact_nx.FakeFd.Model.{OpenRef, FakeFd, FakeAlias, State}
use genshinimpact_nx.FakeFd.Table.{
  high_slot, alias_locked, Place, high, alias, descriptor_locked, free_from, alloc_high_locked,
  unused_alias,
}
use genshinimpact_nx.FakeFd.Counts.{
  hit, count_fds, count_aliases, refs_of, IsAlias, AllAliases, Sound,
}
use genshinimpact_nx.FakeFd.References.{hit_self}

pub alias_locked_lem :
    (l : List FakeAlias) (fd : ℤ) (i : ℕ)
    → alias_locked l fd ≡ some i
    → (a : FakeAlias) × (get_elem? l i ≡ some a) × (a.used ≡ 1) × (same_int a.fd fd ≡ true)
unfolding alias_locked
alias_locked_lem [] fd i h = cc
alias_locked_lem (a ∷ l) fd zero h = (a, refl, ground arith, ground arith)
alias_locked_lem (a ∷ l) fd (suc i) h = alias_locked_lem l fd i (ground arith)

pub unused_alias_lem :
    (l : List FakeAlias) (i : ℕ)
    → unused_alias l ≡ some i
    → (a : FakeAlias) × (get_elem? l i ≡ some a) × (a.used ≡ 0)
unfolding unused_alias
unused_alias_lem [] i h = cc
unused_alias_lem (a ∷ l) zero h = (a, refl, ground arith)
unused_alias_lem (a ∷ l) (suc i) h = unused_alias_lem l i (ground arith)

abbrev is_free : FakeFd → Bool
is_free d = elim d.ref [ none ↦ true | some o ↦ false ]

-- The slot found is free and not below the first that is allowed.
pub free_from_lem :
    (ds : List FakeFd) (first i j : ℕ)
    → free_from ds first i ≡ some j
    → (i ≤ j)
      × (first ≤ j)
      × (j < i + length ds)
      × ((d : FakeFd) × (get_elem? ds (j - i) ≡ some d) × (d.ref ≡ none))
unfolding free_from
free_from_lem [] first i j h = cc
free_from_lem (d ∷ ds) first i j h = elim (Bool-cases (leb first i && is_free d)) [
  | inl e ↦
      let here : i ≡ j = ground arith in
      let z : j - i ≡ 0 = omega arith in
      (omega arith, ground arith, omega arith, (d, rw z, ground arith))
  | inr e ↦
      let (a, b, c, (f, at_f, empty)) = free_from_lem ds first (i + 1) j (ground arith) in
      let z : j - i ≡ suc (j - (i + 1)) = omega arith in
      (omega arith, b, omega arith, (f, rw z at_f, empty))
]

-- A search of the whole table.
pub free_slot :
    (ds : List FakeFd) (first j : ℕ)
    → free_from ds first 0 ≡ some j
    → (first ≤ j) × (j < length ds) × (d : FakeFd) × (get_elem? ds j ≡ some d) × (d.ref ≡ none)
free_slot ds first j h =
    let (a, b, c, (d, there, empty)) = free_from_lem ds first 0 j h in
    let e : j - 0 ≡ j = omega arith in (b, omega arith, d, rw e at there, empty)

pub alloc_high_locked_lem :
    (ds : List FakeFd) (j : ℕ)
    → alloc_high_locked ds ≡ some j
    → (j < length ds) × (d : FakeFd) × (get_elem? ds j ≡ some d) × (d.ref ≡ none)
unfolding alloc_high_locked
alloc_high_locked_lem ds j h =
    let (a, b, d, there, empty) = free_slot ds 0 j h in (b, d, there, empty)

pub AllAliases-get :
    (l : List FakeAlias) (i : ℕ) (a : FakeAlias) → AllAliases l → get_elem? l i ≡ some a → IsAlias a
AllAliases-get [] i a h e = cc
AllAliases-get (x ∷ l) zero a h e = ground arith
AllAliases-get (x ∷ l) (suc i) a h e = AllAliases-get l i a h.1 e

-- Where a descriptor stands in the tables.
abbrev pub Stands : State → Place → FakeFd → Type 0
Stands s (high i) d = get_elem? s.fds i ≡ some d
Stands s (alias i) d =
    (a : FakeAlias) × (get_elem? s.aliases i ≡ some a) × (a.descriptor ≡ d) × (a.used ≡ 1)

hit-le-count_fds :
    (o : OpenRef) (ds : List FakeFd) (i : ℕ) (d : FakeFd)
    → get_elem? ds i ≡ some d
    → hit o d.ref ≤ count_fds o ds
hit-le-count_fds o [] i d h = cc
hit-le-count_fds o (x ∷ ds) zero d h = ground arith
hit-le-count_fds o (x ∷ ds) (suc i) d h = omega (arith, hit-le-count_fds o ds i d h)

hit-le-count_aliases :
    (o : OpenRef) (l : List FakeAlias) (i : ℕ) (a : FakeAlias)
    → get_elem? l i ≡ some a
    → hit o a.descriptor.ref ≤ count_aliases o l
hit-le-count_aliases o [] i a h = cc
hit-le-count_aliases o (x ∷ l) zero a h = ground arith
hit-le-count_aliases o (x ∷ l) (suc i) a h = omega (arith, hit-le-count_aliases o l i a h)

-- A descriptor that is found stands in its place, and its description is there.
pub record Found (s : State) (place : Place) (d : FakeFd) : Type 0 where
  pub stands : Stands s place d
  pub target : OpenRef
  pub points : d.ref ≡ some target
  pub live : 0 < refs_of s.heap target

-- A high descriptor that is found is not free.
NotFree : Place → FakeFd → Type 0
NotFree (high i) d = (o : OpenRef) × (d.ref ≡ some o)
NotFree (alias i) d = Unit {0}

abbrev alias_entry : ℕ → FakeAlias → Option (Place × FakeFd)
alias_entry i a = some (alias i, a.descriptor)

from_alias :
    (s : State) (fd : ℤ) (place : Place) (d : FakeFd) (i : ℕ)
    → alias_locked s.aliases fd ≡ some i
    → (get_elem? s.aliases i >>= alias_entry i) ≡ some (place, d)
    → Stands s place d × NotFree place d
unfolding NotFree
from_alias s fd place d i e h =
    let (a, there, used, same) = alias_locked_lem s.aliases fd i e in
    let found : some (alias i, a.descriptor) ≡ some (place, d) = rw there at h in
    let at_place : alias i ≡ place = cc in
    let its : a.descriptor ≡ d = cc in
    subst (λ p. Stands s p d × NotFree p d) at_place ((a, there, its, used), tt)

from_high :
    (s : State) (place : Place) (d e : FakeFd) (i : ℕ)
    → get_elem? s.fds i ≡ some e
    → (let r : Option (Place × FakeFd) = elim e.ref [ none ↦ none | some o ↦ some (high i, e) ] in
        r)
      ≡ some (place, d)
    → Stands s place d × NotFree place d
unfolding NotFree
from_high s place d e i there h = elim (Option-cases e.ref) [
  | inl empty ↦ absurd (ground arith)
  | inr (o, points) ↦
      let at_place : high i ≡ place = ground arith in
      let its : e ≡ d = ground arith in
      subst (λ p. Stands s p d × NotFree p d) at_place (cc, (o, cc))
]

placed :
    (s : State) (fd : ℤ) (place : Place) (d : FakeFd)
    → descriptor_locked s fd ≡ some (place, d)
    → Stands s place d × NotFree place d
unfolding descriptor_locked
placed s fd place d h = elim (Option-cases (high_slot fd)) [
  | inl low ↦
      let h' = rw (low, descriptor_locked) at h in
      let (i, found, rest) = >>=-eq-some (alias_locked s.aliases fd) _ h' in
      from_alias s fd place d i found rest
  | inr (i, slot) ↦
      let h' = rw (slot, descriptor_locked) at h in
      let (e, there, rest) = >>=-eq-some (get_elem? s.fds i) _ h' in
      from_high s place d e i there rest
]

pointed :
    (s : State) (calls : List OpenRef) (place : Place) (d : FakeFd)
    → Sound s calls
    → Stands s place d
    → NotFree place d
    → Found s place d
unfolding NotFree
pointed s calls (high i) d v there (o, points) = record {
  stands = there;
  target = o;
  points = points;
  live =
      let one : hit o d.ref ≡ 1 = rw points (hit_self o) in
      omega (arith, v.counted o, hit-le-count_fds o s.fds i d there);
}
pointed s calls (alias i) d v (a, there, its, used) u = elim (Option-cases d.ref) [
  | inl empty ↦
      absurd ((AllAliases-get s.aliases i a v.aliased there).0 used (ap (λ e. e.ref) its ∙ empty))
  | inr (o, points) ↦ record {
    stands = (a, there, its, used);
    target = o;
    points = points;
    live =
        let one : hit o a.descriptor.ref ≡ 1 = rw (its, points) (hit_self o) in
        omega (arith, v.counted o, hit-le-count_aliases o s.aliases i a there);
  }
]

pub descriptor_locked_lem :
    (s : State) (calls : List OpenRef) (fd : ℤ) (place : Place) (d : FakeFd)
    → Sound s calls
    → descriptor_locked s fd ≡ some (place, d)
    → Found s place d
descriptor_locked_lem s calls fd place d v h =
    let (there, busy) = placed s fd place d h in pointed s calls place d v there busy
