-- ===== src/Package/Version/Order.antt =====
-- The piecewise order of versions is a total preorder, whatever bound on the pieces is large enough.
use Prim.Native.Nat.{compare, Ordering}
use lcfg_core.Common.{
  ℕ, zero, suc, ◌+◌, ◌≤◌, ◌≡◌, refl, sym, ap, ◌∙◌, [], ◌∷◌, Bytes, length, arith,
}
use lcfg_core.Package.Version.Segments.{
  then_by, rank, prefix, after_prefix, compare_prefix, value, after_number, rest, compare_first,
  compare_pieces,
}
use lcfg_core.Package.Version.Pieces.{compare_pieces-nil}

abbrev pub flip : Ordering → Ordering
flip Ordering.lt = Ordering.gt
flip Ordering.eq = Ordering.eq
flip Ordering.gt = Ordering.lt

-- What the orders `p` of x and y and `q` of y and z leave open for the order `r` of x and z.
abbrev pub Composes : Ordering → Ordering → Ordering → Type 0
Composes Ordering.eq q r = r ≡ q
Composes Ordering.lt Ordering.gt r = Unit
Composes Ordering.lt _ r = r ≡ Ordering.lt
Composes Ordering.gt Ordering.lt r = Unit
Composes Ordering.gt _ r = r ≡ Ordering.gt

pub flip-then_by : (p q : Ordering) → flip (then_by p q) ≡ then_by (flip p) (flip q)
flip-then_by Ordering.lt q = refl
flip-then_by Ordering.eq q = refl
flip-then_by Ordering.gt q = refl

pub Composes-then_by :
    (p q r p' q' r' : Ordering)
    → Composes p q r
    → (p ≡ Ordering.eq → q ≡ Ordering.eq → Composes p' q' r')
    → Composes (then_by p p') (then_by q q') (then_by r r')
Composes-then_by Ordering.eq Ordering.eq r p' q' r' h k = rw h (k refl refl)
Composes-then_by Ordering.eq Ordering.lt r Ordering.lt q' r' h k = rw h
Composes-then_by Ordering.eq Ordering.lt r Ordering.eq q' r' h k = rw h
Composes-then_by Ordering.eq Ordering.lt r Ordering.gt q' r' h k = tt
Composes-then_by Ordering.eq Ordering.gt r Ordering.lt q' r' h k = tt
Composes-then_by Ordering.eq Ordering.gt r Ordering.eq q' r' h k = rw h
Composes-then_by Ordering.eq Ordering.gt r Ordering.gt q' r' h k = rw h
Composes-then_by Ordering.lt Ordering.gt r p' q' r' h k = tt
Composes-then_by Ordering.lt Ordering.lt r p' q' r' h k = rw h
Composes-then_by Ordering.lt Ordering.eq r p' Ordering.lt r' h k = rw h
Composes-then_by Ordering.lt Ordering.eq r p' Ordering.eq r' h k = rw h
Composes-then_by Ordering.lt Ordering.eq r p' Ordering.gt r' h k = tt
Composes-then_by Ordering.gt Ordering.lt r p' q' r' h k = tt
Composes-then_by Ordering.gt Ordering.gt r p' q' r' h k = rw h
Composes-then_by Ordering.gt Ordering.eq r p' Ordering.lt r' h k = tt
Composes-then_by Ordering.gt Ordering.eq r p' Ordering.eq r' h k = rw h
Composes-then_by Ordering.gt Ordering.eq r p' Ordering.gt r' h k = rw h

pub compare-flip : (m n : ℕ) → compare n m ≡ flip (compare m n)
compare-flip m n = ground arith

pub compare-Composes : (x y z : ℕ) → Composes (compare x y) (compare y z) (compare x z)
compare-Composes x y z = ground arith

compare_prefix-flip : (a b : Bytes) → compare_prefix b a ≡ flip (compare_prefix a b)
unfolding compare_prefix
compare_prefix-flip [] [] = refl
compare_prefix-flip [] (y ∷ b) =
    rw (flip-then_by, compare-flip 1 (rank y), compare_prefix-flip [] b)
compare_prefix-flip (x ∷ a) [] =
    rw (flip-then_by, compare-flip (rank x) 1, compare_prefix-flip a [])
compare_prefix-flip (x ∷ a) (y ∷ b) =
    rw (flip-then_by, compare-flip (rank x) (rank y), compare_prefix-flip a b)

compare_prefix-Composes :
    (a b c : Bytes) → Composes (compare_prefix a b) (compare_prefix b c) (compare_prefix a c)
unfolding compare_prefix
compare_prefix-Composes [] [] [] = refl
compare_prefix-Composes [] [] (z ∷ c) = refl
compare_prefix-Composes [] (y ∷ b) [] =
    Composes-then_by _ _ Ordering.eq _ _ Ordering.eq (compare-Composes 1 (rank y) 1)
      (λ _ _. compare_prefix-Composes [] b [])
compare_prefix-Composes [] (y ∷ b) (z ∷ c) =
    Composes-then_by _ _ _ _ _ _ (compare-Composes 1 (rank y) (rank z))
      (λ _ _. compare_prefix-Composes [] b c)
compare_prefix-Composes (x ∷ a) [] [] =
    Composes-then_by _ _ _ _ _ _ (compare-Composes (rank x) 1 1)
      (λ _ _. compare_prefix-Composes a [] [])
compare_prefix-Composes (x ∷ a) [] (z ∷ c) =
    Composes-then_by _ _ _ _ _ _ (compare-Composes (rank x) 1 (rank z))
      (λ _ _. compare_prefix-Composes a [] c)
compare_prefix-Composes (x ∷ a) (y ∷ b) [] =
    Composes-then_by _ _ _ _ _ _ (compare-Composes (rank x) (rank y) 1)
      (λ _ _. compare_prefix-Composes a b [])
compare_prefix-Composes (x ∷ a) (y ∷ b) (z ∷ c) =
    Composes-then_by _ _ _ _ _ _ (compare-Composes (rank x) (rank y) (rank z))
      (λ _ _. compare_prefix-Composes a b c)

compare_first-flip : (a b : Bytes) → compare_first b a ≡ flip (compare_first a b)
compare_first-flip a b = rw (
  flip-then_by,
  compare_prefix-flip (prefix a) (prefix b),
  compare-flip (value 0 (after_prefix a)) (value 0 (after_prefix b)),
)

compare_first-Composes :
    (a b c : Bytes) → Composes (compare_first a b) (compare_first b c) (compare_first a c)
compare_first-Composes a b c =
    Composes-then_by _ _ _ _ _ _ (compare_prefix-Composes (prefix a) (prefix b) (prefix c)) (λ _ _.
      compare-Composes (value 0 (after_prefix a)) (value 0 (after_prefix b))
        (value 0 (after_prefix c)))

pub compare_pieces-flip : (n : ℕ) (a b : Bytes) → compare_pieces n b a ≡ flip (compare_pieces n a b)
unfolding compare_pieces
compare_pieces-flip zero a b = refl
compare_pieces-flip (suc n) a b =
    rw (flip-then_by, compare_first-flip a b, compare_pieces-flip n (rest a) (rest b))

pub compare_pieces-Composes :
    (n : ℕ) (a b c : Bytes)
    → Composes (compare_pieces n a b) (compare_pieces n b c) (compare_pieces n a c)
unfolding compare_pieces
compare_pieces-Composes zero a b c = refl
compare_pieces-Composes (suc n) a b c =
    Composes-then_by _ _ _ _ _ _ (compare_first-Composes a b c)
      (λ _ _. compare_pieces-Composes n (rest a) (rest b) (rest c))

length-after_prefix : (s : Bytes) → length (after_prefix s) ≤ length s
unfolding after_prefix
length-after_prefix [] = omega arith
length-after_prefix (c ∷ s) = ground (arith, length-after_prefix s)

length-after_number : (s : Bytes) → length (after_number s) ≤ length s
unfolding after_number
length-after_number [] = omega arith
length-after_number (c ∷ s) = ground (arith, length-after_number s)

length-rest : (c : ℕ) (s : Bytes) → length (rest (c ∷ s)) ≤ length s
unfolding after_prefix after_number
length-rest c s =
    ground
      (arith, length-after_number s, length-after_prefix s, length-after_number (after_prefix s))

length-rest-le : (s : Bytes) → length (rest s) ≤ length s
length-rest-le s = omega (arith, length-after_prefix s, length-after_number (after_prefix s))

-- Enough pieces give the same order.
pub compare_pieces_stable :
    (n m : ℕ) (a b : Bytes)
    → length a + length b ≤ n
    → length a + length b ≤ m
    → compare_pieces n a b ≡ compare_pieces m a b
unfolding compare_pieces
compare_pieces_stable n m [] [] h k = compare_pieces-nil n ∙ sym (compare_pieces-nil m)
compare_pieces_stable (suc n) (suc m) [] (y ∷ b) h k = ap (then_by (compare_first [] (y ∷ b))) (
    compare_pieces_stable n m (rest []) (rest (y ∷ b))
      (omega (arith, length-rest-le [], length-rest y b))
      (omega (arith, length-rest-le [], length-rest y b)))
compare_pieces_stable (suc n) (suc m) (x ∷ a) b h k = ap (then_by (compare_first (x ∷ a) b)) (
    compare_pieces_stable n m (rest (x ∷ a)) (rest b)
      (omega (arith, length-rest x a, length-rest-le b))
      (omega (arith, length-rest x a, length-rest-le b)))
compare_pieces_stable _ _ a b h k = absurd (omega arith)
