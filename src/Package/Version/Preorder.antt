-- ===== src/Package/Version/Preorder.antt =====
-- `compare_vstrings` orders all version strings, the missing ones and the wildcard included.
use Prim.Native.Nat.{compare, Ordering}
use lcfg_core.Common.{
  ℕ, zero, suc, ◌+◌, ◌≤◌, ◌≡◌, inl, inr, refl, sym, ap, ◌∙◌, Bool, true, false, ◌||◌, [], Bytes,
  CString, ℤ, pos, negsuc, length, is_empty, or_default, ◌==◌, if◌then◌else◌, Bool-cases, arith,
}
use lcfg_core.Package.Version.{debvercmp, is_wild, signum, lowest, compare_vstrings}
use lcfg_core.Package.Version.Segments.{sign, then_by, IsText, compare_pieces}
use lcfg_core.Package.Version.Pieces.{debvercmp_loop-compare_pieces}
use lcfg_core.Package.Version.Order.{
  flip, Composes, Composes-then_by, compare-flip, compare-Composes, compare_pieces-flip,
  compare_pieces-Composes, compare_pieces_stable,
}

abbrev pub text : CString → Bytes
text v = or_default v []

-- No NUL stands inside the text.
abbrev pub IsTextOr : CString → Type 0
IsTextOr v = IsText (text v)

-- The loop of `debvercmp` ends by itself, and its result is the order of the pieces of the two
-- versions, for every number of pieces that covers both.
pub debvercmp-compare_pieces :
    (v1 v2 : CString) (n : ℕ)
    → IsTextOr v1
    → IsTextOr v2
    → length (text v1) + length (text v2) ≤ n
    → sign (debvercmp v1 v2) ≡ compare_pieces n (text v1) (text v2)
unfolding debvercmp
debvercmp-compare_pieces v1 v2 n h1 h2 k =
    debvercmp_loop-compare_pieces (suc (length (text v1) + length (text v2))) (text v1) (text v2) h1
      h2
    ∙ compare_pieces_stable _ n (text v1) (text v2) (omega arith) k

debvercmp-flip :
    (v1 v2 : CString)
    → IsTextOr v1
    → IsTextOr v2
    → sign (debvercmp v2 v1) ≡ flip (sign (debvercmp v1 v2))
debvercmp-flip v1 v2 h1 h2 =
    let n = length (text v1) + length (text v2) in
    debvercmp-compare_pieces v2 v1 n h2 h1 (omega arith)
    ∙ compare_pieces-flip n (text v1) (text v2)
    ∙ ap flip (sym (debvercmp-compare_pieces v1 v2 n h1 h2 (omega arith)))

debvercmp-Composes :
    (v1 v2 v3 : CString)
    → IsTextOr v1
    → IsTextOr v2
    → IsTextOr v3
    → Composes (sign (debvercmp v1 v2)) (sign (debvercmp v2 v3)) (sign (debvercmp v1 v3))
debvercmp-Composes v1 v2 v3 h1 h2 h3 =
    let n = length (text v1) + length (text v2) + length (text v3) in
    rw
      (
        debvercmp-compare_pieces v1 v2 n h1 h2 (omega arith),
        debvercmp-compare_pieces v2 v3 n h2 h3 (omega arith),
        debvercmp-compare_pieces v1 v3 n h1 h3 (omega arith),
      )
      (compare_pieces-Composes n (text v1) (text v2) (text v3))

-- Missing versions come first, then the wildcard, then all others.
grade : CString → ℕ
grade v = if is_empty v then 0 else if is_wild v then 1 else 2

-- Two versions of the same grade.
within_grade : CString → CString → Ordering
within_grade v1 v2 = if grade v1 == 2 then sign (debvercmp v1 v2) else Ordering.eq

sign-signum : (z : ℤ) → sign (signum z) ≡ sign z
sign-signum (pos zero) = refl
sign-signum (pos (suc n)) = refl
sign-signum (negsuc n) = refl

-- The two ladders of tests, over any results of the tests.
ladders :
    (e1 e2 w1 w2 : Bool) (d : ℤ)
    → sign (signum (if e1 || e2 then lowest e1 e2 else if w1 || w2 then lowest w1 w2 else d))
      ≡ then_by
          (compare (if e1 then 0 else if w1 then 1 else 2) (if e2 then 0 else if w2 then 1 else 2))
          (if (if e1 then 0 else if w1 then 1 else 2) == 2 then sign d else Ordering.eq)
ladders true true w1 w2 d = refl
ladders true false w1 true d = refl
ladders true false w1 false d = refl
ladders false true true w2 d = refl
ladders false true false w2 d = refl
ladders false false true true d = refl
ladders false false true false d = refl
ladders false false false true d = refl
ladders false false false false d = sign-signum d

sign-compare_vstrings :
    (v1 v2 : CString)
    → sign (compare_vstrings v1 v2) ≡ then_by (compare (grade v1) (grade v2)) (within_grade v1 v2)
unfolding compare_vstrings grade within_grade
sign-compare_vstrings v1 v2 =
    ladders (is_empty v1) (is_empty v2) (is_wild v1) (is_wild v2) (debvercmp v1 v2)

abbrev pub negate : ℤ → ℤ
negate (pos zero) = pos 0
negate (pos (suc n)) = negsuc n
negate (negsuc n) = pos (suc n)

-- The results are -1, 0 and 1, which their signs tell apart.
signum-negate : (x y : ℤ) → sign (signum x) ≡ flip (sign (signum y)) → signum x ≡ negate (signum y)
signum-negate (pos zero) (pos zero) h = refl
signum-negate (pos zero) (pos (suc n)) h = cc
signum-negate (pos zero) (negsuc n) h = cc
signum-negate (pos (suc m)) (pos zero) h = cc
signum-negate (pos (suc m)) (pos (suc n)) h = cc
signum-negate (pos (suc m)) (negsuc n) h = refl
signum-negate (negsuc m) (pos zero) h = cc
signum-negate (negsuc m) (pos (suc n)) h = refl
signum-negate (negsuc m) (negsuc n) h = cc

same_grade : (m n : ℕ) → compare m n ≡ Ordering.eq → m ≡ n
same_grade m n h = ground arith

-- Only versions of the last grade are compared any further.
within_grade-flip :
    (v1 v2 : CString)
    → IsTextOr v1
    → IsTextOr v2
    → compare (grade v1) (grade v2) ≡ Ordering.eq
    → within_grade v2 v1 ≡ flip (within_grade v1 v2)
unfolding within_grade
within_grade-flip v1 v2 h1 h2 e =
    rw (same_grade (grade v1) (grade v2) e) (elim (Bool-cases (grade v2 == 2)) [
      | inl y ↦ rw y (debvercmp-flip v1 v2 h1 h2)
      | inr n ↦ rw n
    ])

within_grade-Composes :
    (v1 v2 v3 : CString)
    → IsTextOr v1
    → IsTextOr v2
    → IsTextOr v3
    → compare (grade v1) (grade v2) ≡ Ordering.eq
    → compare (grade v2) (grade v3) ≡ Ordering.eq
    → Composes (within_grade v1 v2) (within_grade v2 v3) (within_grade v1 v3)
unfolding within_grade
within_grade-Composes v1 v2 v3 h1 h2 h3 e f =
    rw (same_grade (grade v1) (grade v2) e) (elim (Bool-cases (grade v2 == 2)) [
      | inl y ↦ rw y (debvercmp-Composes v1 v2 v3 h1 h2 h3)
      | inr n ↦ rw n refl
    ])

then_by-flip :
    (p q p' q' : Ordering)
    → p' ≡ flip p
    → (p ≡ Ordering.eq → q' ≡ flip q)
    → then_by p' q' ≡ flip (then_by p q)
then_by-flip Ordering.lt q p' q' h k = rw h
then_by-flip Ordering.eq q p' q' h k = rw (h, k refl)
then_by-flip Ordering.gt q p' q' h k = rw h

-- Swapping the versions negates the result.
pub compare_vstrings_antisym :
    (v1 v2 : CString)
    → IsTextOr v1
    → IsTextOr v2
    → compare_vstrings v2 v1 ≡ negate (compare_vstrings v1 v2)
unfolding compare_vstrings
compare_vstrings_antisym v1 v2 h1 h2 = signum-negate _ _ (
    sign-compare_vstrings v2 v1
    ∙ then_by-flip (compare (grade v1) (grade v2)) (within_grade v1 v2) _ _
        (compare-flip (grade v1) (grade v2)) (within_grade-flip v1 v2 h1 h2)
    ∙ ap flip (sym (sign-compare_vstrings v1 v2)))

-- The order is transitive: what the results on (v1, v2) and on (v2, v3) say together holds of the
-- result on (v1, v3); a result of 0 makes the two versions interchangeable.
pub compare_vstrings-Composes :
    (v1 v2 v3 : CString)
    → IsTextOr v1
    → IsTextOr v2
    → IsTextOr v3
    → Composes
        (sign (compare_vstrings v1 v2))
        (sign (compare_vstrings v2 v3))
        (sign (compare_vstrings v1 v3))
compare_vstrings-Composes v1 v2 v3 h1 h2 h3 =
    rw (sign-compare_vstrings v1 v2, sign-compare_vstrings v2 v3, sign-compare_vstrings v1 v3)
      (Composes-then_by _ _ _ _ _ _ (compare-Composes (grade v1) (grade v2) (grade v3))
        (within_grade-Composes v1 v2 v3 h1 h2 h3))
