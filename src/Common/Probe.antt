-- ===== src/Common/Probe.antt =====
-- Linear probing: the two loops that the hash tables of the source share, from the slot of the
-- hash to the last one and then from the first one to the slot of the hash.
use Prim.Native.Nat.{ℕ, zero, suc, ◌+◌, ◌-◌, ◌<◌, ◌≤◌}
use mathlib.Core.Path.{◌≡◌, refl}
use mathlib.Core.Logic.{inl, inr}
use mathlib.Core.Bool.{Bool, true, false}
use mathlib.Core.Option.{Option, none, some}
use native.Mathlib.Omega.{arith}
use lcfg_core.Common.Tests.{if◌then◌else◌, ◌==◌, ltb, Bool-cases, Option-cases}

-- `for ( i = start; !done && i < start + n; i++ )`: the first slot that `stop` accepts.
unfoldable pub probe_from : (ℕ → Bool) → ℕ → ℕ → Option ℕ
probe_from stop i zero = none
probe_from stop i (suc n) =
    let later = probe_from stop (suc i) n in if stop i then some i else later

abbrev pub or_else : Option ℕ → Option ℕ → Option ℕ
or_else (some i) o = some i
or_else none o = o

-- The slot at which one of both loops ends, of `n` slots.
unfoldable pub probe : (ℕ → Bool) → ℕ → ℕ → Option ℕ
unfolding probe_from
probe stop hash n = or_else (probe_from stop hash (n - hash)) (probe_from stop 0 hash)

-- A loop that is weakened accepts fewer slots, but still the one that was found.
module _ (s s' : ℕ → Bool) (weaker : (i : ℕ) → s' i ≡ true → s i ≡ true) where
  probe_from-weaken :
      (j i n : ℕ) → s' j ≡ true → probe_from s i n ≡ some j → probe_from s' i n ≡ some j
  unfolding probe_from
  probe_from-weaken j i zero h e = ground arith
  probe_from-weaken j i (suc n) h e = ground (arith, probe_from-weaken j (suc i) n, weaker i)

  probe_from-weaken_none : (i n : ℕ) → probe_from s i n ≡ none → probe_from s' i n ≡ none
  unfolding probe_from
  probe_from-weaken_none i zero e = refl
  probe_from-weaken_none i (suc n) e = ground (arith, probe_from-weaken_none (suc i) n, weaker i)

probe_from-stops : (s : ℕ → Bool) (j i n : ℕ) → probe_from s i n ≡ some j → s j ≡ true
unfolding probe_from
probe_from-stops s j i zero e = ground arith
probe_from-stops s j i (suc n) e = ground (arith, probe_from-stops s j (suc i) n)

probe_from-range : (s : ℕ → Bool) (j i n : ℕ) → probe_from s i n ≡ some j → (i ≤ j) × (j < i + n)
unfolding probe_from
probe_from-range s j i zero e = ground arith
probe_from-range s j i (suc n) e = ground (arith, probe_from-range s j (suc i) n)

probe_from-all :
    (s : ℕ → Bool) (m i n : ℕ) → probe_from s i n ≡ none → i ≤ m → m < i + n → s m ≡ false
unfolding probe_from
probe_from-all s m i zero e below above = ground arith
probe_from-all s m i (suc n) e below above = elim (Bool-cases (i == m)) [
  | inl same ↦ ground arith
  | inr other ↦ ground (arith, probe_from-all s m (suc i) n)
]

module _ (s s' : ℕ → Bool) (weaker : (i : ℕ) → s' i ≡ true → s i ≡ true) where
  pub probe-weaken :
      (hash n j : ℕ) → s' j ≡ true → probe s hash n ≡ some j → probe s' hash n ≡ some j
  unfolding probe
  probe-weaken hash n j h e = elim (Option-cases (probe_from s hash (n - hash))) [
    | inl absent ↦
        let first = probe_from-weaken_none s s' weaker hash (n - hash) absent in
        let second : probe_from s 0 hash ≡ some j = ground arith in
        rw first (probe_from-weaken s s' weaker j 0 hash h second)
    | inr (i, found) ↦
        let same : i ≡ j = ground arith in
        rw (probe_from-weaken s s' weaker j hash (n - hash) h (rw (found, same) refl)) refl
  ]

  pub probe-weaken_none : (hash n : ℕ) → probe s hash n ≡ none → probe s' hash n ≡ none
  unfolding probe
  probe-weaken_none hash n e = elim (Option-cases (probe_from s hash (n - hash))) [
    | inl absent ↦
        let second : probe_from s 0 hash ≡ none = ground arith in
        rw
          (
            probe_from-weaken_none s s' weaker hash (n - hash) absent,
            probe_from-weaken_none s s' weaker 0 hash second,
          )
          refl
    | inr (i, found) ↦ ground arith
  ]

module _ (s : ℕ → Bool) (hash n : ℕ) where
  pub probe-stops : (j : ℕ) → probe s hash n ≡ some j → s j ≡ true
  unfolding probe
  probe-stops j e = elim (Option-cases (probe_from s hash (n - hash))) [
    | inl absent ↦ probe_from-stops s j 0 hash (ground arith)
    | inr (i, found) ↦ probe_from-stops s j hash (n - hash) (ground arith)
  ]

  pub probe-bound : (j : ℕ) → hash ≤ n → probe s hash n ≡ some j → j < n
  unfolding probe
  probe-bound j small e = elim (Option-cases (probe_from s hash (n - hash))) [
    | inl absent ↦ ground (arith, probe_from-range s j 0 hash)
    | inr (i, found) ↦ ground (arith, probe_from-range s j hash (n - hash))
  ]

  pub probe-all : (m : ℕ) → probe s hash n ≡ none → m < n → s m ≡ false
  unfolding probe
  probe-all m e below =
      let first : probe_from s hash (n - hash) ≡ none = ground arith in
      let second : probe_from s 0 hash ≡ none = ground arith in
      elim (Bool-cases (ltb m hash)) [
        | inl before ↦ probe_from-all s m 0 hash second (ground arith) (ground arith)
        | inr behind ↦ probe_from-all s m hash (n - hash) first (ground arith) (ground arith)
      ]
