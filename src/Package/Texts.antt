-- ===== src/Package/Texts.antt =====
-- `strcmp` and `strcasecmp` order texts totally, as the comparisons of packages need it.
use Prim.Native.Nat.{compare, Ordering}
use lcfg_core.Common.{
  ℕ, ◌≡◌, refl, ◌∙◌, [], ◌∷◌, map, Bytes, strcmp, strcasecmp, to_lower, sub_ℕ, arith,
}
use lcfg_core.Package.Version.Segments.{sign, then_by, IsText}
use lcfg_core.Package.Version.Order.{
  flip, Composes, compare-flip, compare-Composes, flip-then_by, Composes-then_by,
}

sign-sub_ℕ : (a b : ℕ) → sign (sub_ℕ a b) ≡ compare a b
unfolding sub_ℕ
sign-sub_ℕ a b = ground arith

-- The dictionary order of texts.
unfoldable pub dictionary : Bytes → Bytes → Ordering
dictionary [] [] = Ordering.eq
dictionary [] (d ∷ t) = Ordering.lt
dictionary (c ∷ s) [] = Ordering.gt
dictionary (c ∷ s) (d ∷ t) = then_by (compare c d) (dictionary s t)

pub sign-strcmp : (a b : Bytes) → IsText a → IsText b → sign (strcmp a b) ≡ dictionary a b
unfolding strcmp dictionary
sign-strcmp [] [] h k = refl
sign-strcmp [] (d ∷ t) h (k, ks) = sign-sub_ℕ 0 d ∙ ground (arith, k)
sign-strcmp (c ∷ s) [] (h, hs) k = sign-sub_ℕ c 0 ∙ ground (arith, h)
sign-strcmp (c ∷ s) (d ∷ t) (h, hs) (k, ks) = ground (arith, sign-strcmp s t hs ks, sign-sub_ℕ c d)

pub dictionary-flip : (a b : Bytes) → dictionary b a ≡ flip (dictionary a b)
unfolding dictionary
dictionary-flip [] [] = refl
dictionary-flip [] (d ∷ t) = refl
dictionary-flip (c ∷ s) [] = refl
dictionary-flip (c ∷ s) (d ∷ t) =
    rw (compare-flip c d, dictionary-flip s t, flip-then_by (compare c d) (dictionary s t))

lt-Composes : (o : Ordering) → Composes Ordering.lt o Ordering.lt
lt-Composes Ordering.lt = refl
lt-Composes Ordering.eq = refl
lt-Composes Ordering.gt = tt

Composes-gt : (o : Ordering) → Composes o Ordering.gt Ordering.gt
Composes-gt Ordering.lt = tt
Composes-gt Ordering.eq = refl
Composes-gt Ordering.gt = refl

pub then_by_eq :
    (p q : Ordering) → then_by p q ≡ Ordering.eq → (p ≡ Ordering.eq) × (q ≡ Ordering.eq)
then_by_eq Ordering.lt q h = ground (arith, h)
then_by_eq Ordering.eq q h = (refl, h)
then_by_eq Ordering.gt q h = ground (arith, h)

pub dictionary-Composes :
    (x y z : Bytes) → Composes (dictionary x y) (dictionary y z) (dictionary x z)
unfolding dictionary
dictionary-Composes [] [] z = refl
dictionary-Composes [] (b ∷ y) [] = tt
dictionary-Composes [] (b ∷ y) (c ∷ z) = lt-Composes (then_by (compare b c) (dictionary y z))
dictionary-Composes (a ∷ x) [] [] = refl
dictionary-Composes (a ∷ x) [] (c ∷ z) = tt
dictionary-Composes (a ∷ x) (b ∷ y) [] = Composes-gt (then_by (compare a b) (dictionary x y))
dictionary-Composes (a ∷ x) (b ∷ y) (c ∷ z) =
    Composes-then_by _ _ _ _ _ _ (compare-Composes a b c) (λ _ _. dictionary-Composes x y z)

pub dictionary-eq : (a b : Bytes) → dictionary a b ≡ Ordering.eq → a ≡ b
unfolding dictionary
dictionary-eq [] [] h = refl
dictionary-eq [] (d ∷ t) h = ground (arith, h)
dictionary-eq (c ∷ s) [] h = ground (arith, h)
dictionary-eq (c ∷ s) (d ∷ t) h =
    let (first, others) = then_by_eq (compare c d) (dictionary s t) h in
    let e : c ≡ d = ground (arith, first) in rw (e, dictionary-eq s t others)

pub strcasecmp-strcmp : (a b : Bytes) → strcasecmp a b ≡ strcmp (map to_lower a) (map to_lower b)
unfolding strcasecmp strcmp
strcasecmp-strcmp [] [] = refl
strcasecmp-strcmp [] (d ∷ t) = refl
strcasecmp-strcmp (c ∷ s) [] = refl
strcasecmp-strcmp (c ∷ s) (d ∷ t) = rw (strcasecmp-strcmp s t)

pub IsText-to_lower : (s : Bytes) → IsText s → IsText (map to_lower s)
unfolding to_lower
IsText-to_lower [] h = tt
IsText-to_lower (c ∷ s) (h, hs) = (ground arith, IsText-to_lower s hs)
