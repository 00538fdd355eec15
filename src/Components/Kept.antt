-- ===== src/Components/Kept.antt =====
-- The names that components keep when a reference to one is taken or given back:
-- resources/components/component.c.
use lcfg_core.Common.{
  ℕ, ◌+◌, ◌-◌, ◌<◌, ◌≡◌, refl, ap, true, false, Option, none, some, [], or_default, ◌==◌, ltb,
  arith, Bool-cases, inl, inr,
}
use lcfg_core.Derivation.{u32}
use lcfg_core.Components.{World, acquire, relinquish}
use lcfg_core.Components.Table.{slot_name}

pub acquire-name : (w : World) (p q : ℕ) → ((acquire w p).comps q).name ≡ (w.comps q).name
unfolding acquire
acquire-name w p q = elim (Bool-cases (q == p)) [
  | inl here ↦ let at : q ≡ p = ground arith in rw (here, at) refl
  | inr away ↦ rw away refl
]

pub acquire-refcount :
    (w : World) (p : ℕ)
    → (w.comps p).refcount + 1 < u32
    → ((acquire w p).comps p).refcount ≡ (w.comps p).refcount + 1
unfolding acquire
acquire-refcount w p small = let here : (p == p) ≡ true = ground arith in rw here (omega arith)

pub relinquish-away :
    (w : World) (p q : ℕ) → (q == p) ≡ false → (relinquish w p).comps q ≡ w.comps q
unfolding relinquish
relinquish-away w p q away = rw away refl

pub relinquish-alive :
    (w : World) (p q : ℕ)
    → 1 < (w.comps p).refcount
    → ((relinquish w p).comps q).name ≡ (w.comps q).name
unfolding relinquish
relinquish-alive w p q alive = elim (Bool-cases (q == p)) [
  | inl here ↦
      let at : q ≡ p = ground arith in
      let some_held : ltb 0 (w.comps p).refcount ≡ true = ground arith in
      let others : ((w.comps p).refcount - 1 == 0) ≡ false = ground arith in
      rw (here, at, some_held, others) refl
  | inr away ↦ rw away refl
]

pub slot_name-eq :
    (w w' : World) (o : Option ℕ)
    → ((q : ℕ) → (w'.comps q).name ≡ (w.comps q).name)
    → slot_name w'.comps o ≡ slot_name w.comps o
slot_name-eq w w' none same = refl
slot_name-eq w w' (some q) same = ap (λ s. some (or_default s [])) (same q)
