-- ===== src/PackageList/Sorted.antt =====
-- The bubble sort of packages ends, and it orders the list: the inner loop lowers the number of
-- pairs in the wrong order whenever it swaps.
use lcfg_core.Common.{
  ℕ, zero, suc, ◌+◌, ◌*◌, ◌≤◌, ◌<◌, ◌≡◌, refl, Bool, true, false, List, [], ◌∷◌, length, count_if,
  if◌then◌else◌, arith, Bool-cases, inl, inr,
}
use lcfg_core.PackageList.Sort.{bubble, pass, passes}

-- The same nodes, whatever the order.
abbrev pub IsReordered : List ℕ → List ℕ → Type 0
IsReordered xs ys = (f : ℕ → Bool) → count_if f xs ≡ count_if f ys

module _ (greater : ℕ → ℕ → Bool) where
  -- No node is greater than the next one.
  unfoldable pub IsSortedFrom : ℕ → List ℕ → Type 0
  IsSortedFrom p [] = Unit
  IsSortedFrom p (q ∷ ps) = (greater p q ≡ false) × IsSortedFrom q ps

  unfoldable pub IsSorted : List ℕ → Type 0
  unfolding IsSortedFrom
  IsSorted [] = Unit
  IsSorted (p ∷ ps) = IsSortedFrom p ps

  -- The number of pairs in the wrong order.
  unfoldable pub inversions : List ℕ → ℕ
  inversions [] = 0
  inversions (p ∷ ps) = count_if (greater p) ps + inversions ps

  bubble-IsReordered : (p : ℕ) (ps : List ℕ) → IsReordered (bubble greater p ps).0 (p ∷ ps)
  unfolding bubble
  bubble-IsReordered p [] f = refl
  bubble-IsReordered p (q ∷ ps) f =
      ground (arith, bubble-IsReordered p ps f, bubble-IsReordered q ps f)

  pass-IsReordered : (ps : List ℕ) → IsReordered (pass greater ps).0 ps
  unfolding pass
  pass-IsReordered [] f = refl
  pass-IsReordered (p ∷ ps) f = bubble-IsReordered p ps f

  pub passes-IsReordered : (n : ℕ) (ps : List ℕ) → IsReordered (passes greater n ps) ps
  unfolding passes
  passes-IsReordered zero ps f = refl
  passes-IsReordered (suc n) ps f =
      ground (arith, pass-IsReordered ps f, passes-IsReordered n (pass greater ps).0 f)

  bubble-inversions :
      ((p q : ℕ) → greater p q ≡ true → greater q p ≡ false)
      → (p : ℕ) (ps : List ℕ)
      → inversions (bubble greater p ps).0 + (if (bubble greater p ps).1 then 1 else 0)
        ≤ inversions (p ∷ ps)
  unfolding bubble inversions
  bubble-inversions asym p [] = omega arith
  bubble-inversions asym p (q ∷ ps) = elim (Bool-cases (greater p q)) [
    | inl e ↦
        ground (arith, asym p q e, bubble-inversions asym p ps, bubble-IsReordered p ps (greater q))
    | inr e ↦ ground (arith, bubble-inversions asym q ps, bubble-IsReordered q ps (greater p))
  ]

  bubble-IsSortedFrom :
      (p : ℕ) (ps : List ℕ)
      → (bubble greater p ps).1 ≡ false
      → ((bubble greater p ps).0 ≡ p ∷ ps) × IsSortedFrom p ps
  unfolding bubble IsSortedFrom
  bubble-IsSortedFrom p [] h = (refl, tt)
  bubble-IsSortedFrom p (q ∷ ps) h = elim (Bool-cases (greater p q)) [
    | inl e ↦ ground (arith, e, h)
    | inr e ↦
        let ih = bubble-IsSortedFrom q ps (ground (arith, e, h)) in
        rw (e, ih.0) (refl, (refl, ih.1))
  ]

  pass-inversions :
      ((p q : ℕ) → greater p q ≡ true → greater q p ≡ false)
      → (ps : List ℕ)
      → inversions (pass greater ps).0 + (if (pass greater ps).1 then 1 else 0) ≤ inversions ps
  unfolding pass inversions
  pass-inversions asym [] = omega arith
  pass-inversions asym (p ∷ ps) = bubble-inversions asym p ps

  pass-IsSorted : (ps : List ℕ) → (pass greater ps).1 ≡ false → IsSorted (pass greater ps).0
  unfolding pass IsSorted
  pass-IsSorted [] h = tt
  pass-IsSorted (p ∷ ps) h = let (same, sorted) = bubble-IsSortedFrom p ps h in rw same sorted

  -- Passes enough for the pairs in the wrong order put the nodes in order.
  pub passes-IsSorted :
      ((p q : ℕ) → greater p q ≡ true → greater q p ≡ false)
      → (n : ℕ) (ps : List ℕ) → inversions ps < n
      → IsSorted (passes greater n ps)
  unfolding passes
  passes-IsSorted asym zero ps h = elim h [ ]
  passes-IsSorted asym (suc n) ps h = elim (Bool-cases (pass greater ps).1) [
    | inl e ↦
        rw e
          (passes-IsSorted asym n (pass greater ps).0 (ground (arith, e, pass-inversions asym ps)))
    | inr e ↦ rw e (pass-IsSorted ps e)
  ]

  count_if-bounded : (f : ℕ → Bool) (ps : List ℕ) → count_if f ps ≤ length ps
  count_if-bounded f [] = omega arith
  count_if-bounded f (p ∷ ps) = ground (arith, count_if-bounded f ps)

  inversions-bounded : (ps : List ℕ) → inversions ps ≤ length ps * length ps
  unfolding inversions
  inversions-bounded [] = omega arith
  inversions-bounded (p ∷ ps) =
      grind (arith, count_if-bounded (greater p) ps, inversions-bounded ps)

  inversions-enough :
      (p : ℕ) (ps : List ℕ) → inversions (p ∷ ps) < length (p ∷ ps) * length (p ∷ ps)
  unfolding inversions
  inversions-enough p ps = grind (arith, count_if-bounded (greater p) ps, inversions-bounded ps)

  -- The fuel of the sort is enough for a list that is not empty.
  pub passes-enough :
      ((p q : ℕ) → greater p q ≡ true → greater q p ≡ false)
      → (p : ℕ) (ps : List ℕ)
      → IsSorted (passes greater (length (p ∷ ps) * length (p ∷ ps)) (p ∷ ps))
  passes-enough asym p ps =
      passes-IsSorted asym (length (p ∷ ps) * length (p ∷ ps)) (p ∷ ps) (inversions-enough p ps)
