-- ===== src/Derivation/Sharing.antt =====
-- A derivation that several lists share is never changed through one of them.
use lcfg_core.Common.{
  ℕ, ◌<◌, ◌≡◌, true, [], Change, arith, Bool-cases, ==_iff, inl, inr, Option-cases, or_default,
}
use lcfg_core.Derivation
use lcfg_core.Derivation.{Derivation, is_valid, merge_lines, u32}
use lcfg_core.Derivation.Store.{
  Store, acquire, relinquish, is_shared, allocate, append, set_node, find_node, replace_copy,
  merge_into, merge_derivation,
}

-- The same file and the same lines.
pub record SameContent (d e : Derivation) : Type 0 where
  pub file : d.file ≡ e.file
  pub lines : d.lines ≡ e.lines
  pub lines_count : d.lines_count ≡ e.lines_count

SameContent-acquire : (s : Store) (p q : ℕ) → SameContent ((acquire s p).drvs q) (s.drvs q)
unfolding acquire
SameContent-acquire s p q = ground arith

SameContent-relinquish :
    (s : Store) (p q : ℕ)
    → is_shared (s.drvs q) ≡ true
    → SameContent ((relinquish s p).drvs q) (s.drvs q)
unfolding relinquish is_shared
SameContent-relinquish s p q h = ground arith

SameContent-append : (s : Store) (l p q : ℕ) → SameContent ((append s l p).0.drvs q) (s.drvs q)
unfolding append
SameContent-append s l p q = ground arith

allocate-keeps :
    (s : Store) (d : Derivation) (q : ℕ) → q < s.next_drv → (allocate s d).0.drvs q ≡ s.drvs q
unfolding allocate
allocate-keeps s d q h = ground arith

SameContent-replace_copy :
    (s : Store) (l i cur q : ℕ) (r : Derivation × Change)
    → q < s.next_drv
    → is_shared (s.drvs q) ≡ true
    → SameContent ((replace_copy s l i cur r).0.drvs q) (s.drvs q)
unfolding replace_copy allocate set_node relinquish is_shared
SameContent-replace_copy s l i cur q (copy, result) h shared = ground arith

SameContent-merge_into :
    (s : Store) (l i cur p q : ℕ)
    → q < s.next_drv
    → is_shared (s.drvs q) ≡ true
    → SameContent ((merge_into s l i cur p).0.drvs q) (s.drvs q)
unfolding merge_into
SameContent-merge_into s l i cur p q h shared = elim (Bool-cases (is_shared (s.drvs cur))) [
  | inl e ↦ ground (
    arith,
    SameContent-replace_copy s l i cur q (merge_lines (Derivation.clone (s.drvs cur)) (s.drvs p)) h
        shared,
  )
  | inr e ↦ ground (arith, ==_iff q cur)
]

-- Copy on write: whatever derivation is merged into whatever list, a derivation on the heap that has
-- more than one reference keeps its file and its lines.
pub merge_derivation-isolates :
    (s : Store) (l p q : ℕ)
    → q < s.next_drv
    → is_shared (s.drvs q) ≡ true
    → SameContent ((merge_derivation s l p).0.drvs q) (s.drvs q)
unfolding merge_derivation
merge_derivation-isolates s l p q h shared =
    elim (Option-cases (find_node s l (or_default (s.drvs p).file []))) [
      | inl e ↦ rw e (ground (arith, SameContent-append s l p q))
      | inr ((i, cur), e) ↦ rw e (ground (arith, SameContent-merge_into s l i cur p q h shared))
    ]
