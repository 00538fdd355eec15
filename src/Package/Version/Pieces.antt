-- ===== src/Package/Version/Pieces.antt =====
-- `debvercmp` compares versions piece by piece, and its loop ends.
use Prim.Native.Nat.{Ordering}
use lcfg_core.Common.{ℕ, zero, suc, ◌≡◌, refl, sym, [], ◌∷◌, Bytes, ℤ, arith}
use lcfg_core.Package.Version.{Outcome, stop, go, skip_prefix, numbers, loop_body, debvercmp_loop}
use lcfg_core.Package.Version.Segments.{
  sign, then_by, prefix, after_prefix, compare_prefix, IsText, value, after_number, rest,
  compare_first, compare_pieces,
}
use lcfg_core.Package.Version.Prefix.{Agrees, skip_prefix-PrefixSpec}
use lcfg_core.Package.Version.Digits.{numbers-Agrees}

IsText-after_prefix : (s : Bytes) → IsText s → IsText (after_prefix s)
unfolding after_prefix
IsText-after_prefix [] h = h
IsText-after_prefix (c ∷ s) h = ground (arith, IsText-after_prefix s h.1)

IsText-after_number : (s : Bytes) → IsText s → IsText (after_number s)
unfolding after_number
IsText-after_number [] h = h
IsText-after_number (c ∷ s) h = ground (arith, IsText-after_number s h.1)

pub IsText-rest : (s : Bytes) → IsText s → IsText (rest s)
IsText-rest s h = IsText-after_number (after_prefix s) (IsText-after_prefix s h)

Agrees-then :
    (o : Outcome) (c d : Ordering) (a b a' b' : Bytes)
    → Agrees o c a b
    → Agrees (numbers (go a b)) d a' b'
    → Agrees (numbers o) (then_by c d) a' b'
Agrees-then (stop e) Ordering.lt d a b a' b' h k = h
Agrees-then (stop e) Ordering.gt d a b a' b' h k = h
Agrees-then (stop e) Ordering.eq d a b a' b' h k = absurd (h.1 refl)
Agrees-then (go x y) c d a b a' b' h k = rw (h.0, h.1, h.2) k

-- One round of the outer loop compares the first pieces, or moves behind them.
pub loop_body-Agrees :
    (a b : Bytes)
    → IsText a
    → IsText b
    → Agrees (loop_body a b) (compare_first a b) (rest a) (rest b)
unfolding loop_body
loop_body-Agrees a b ta tb =
    Agrees-then (skip_prefix a b) _ _ _ _ _ _ (skip_prefix-PrefixSpec a b ta tb)
      (numbers-Agrees (after_prefix a) (after_prefix b))

pub compare_pieces-nil : (n : ℕ) → compare_pieces n [] [] ≡ Ordering.eq
unfolding compare_pieces prefix after_prefix compare_prefix value after_number
compare_pieces-nil zero = refl
compare_pieces-nil (suc n) = compare_pieces-nil n

-- What the loop does with the outcome of a round.
abbrev continue : (Bytes → Bytes → ℤ) → Outcome → ℤ
continue f o = elim o [ stop d ↦ d | go a b ↦ f a b ]

sign-continue :
    (f : Bytes → Bytes → ℤ) (o : Outcome) (c d : Ordering) (a b : Bytes)
    → Agrees o c a b
    → sign (f a b) ≡ d
    → sign (continue f o) ≡ then_by c d
sign-continue f (stop e) Ordering.lt d a b h k = h.0
sign-continue f (stop e) Ordering.gt d a b h k = h.0
sign-continue f (stop e) Ordering.eq d a b h k = absurd (h.1 refl)
sign-continue f (go x y) c d a b h k = rw (h.0, h.1, h.2) k

pub debvercmp_loop-compare_pieces :
    (n : ℕ) (a b : Bytes) → IsText a → IsText b → sign (debvercmp_loop n a b) ≡ compare_pieces n a b
unfolding debvercmp_loop compare_pieces
debvercmp_loop-compare_pieces zero a b ta tb = refl
debvercmp_loop-compare_pieces (suc n) [] [] ta tb = sym (compare_pieces-nil (suc n))
debvercmp_loop-compare_pieces (suc n) a b ta tb =
    sign-continue (debvercmp_loop n) (loop_body a b) _ _ (rest a) (rest b)
      (loop_body-Agrees a b ta tb)
      (debvercmp_loop-compare_pieces n (rest a) (rest b) (IsText-rest a ta) (IsText-rest b tb))
