-- ===== src/Package/Version/Prefix.antt =====
-- The first inner loop of `debvercmp` compares the runs of bytes in front of the numbers.
use Prim.Native.Nat.{compare, Ordering}
use lcfg_core.Common.{
  ℕ, ◌<◌, ◌≡◌, ◌≢◌, refl, Bool, true, false, [], ◌∷◌, Bytes, ◌-ℤ◌, is_digit, is_alpha, arith, inl,
  inr, if◌then◌else◌, Bool-cases, ℤ,
}
use lcfg_core.Package.Version.{order, same, Outcome, stop, go, skip_prefix}
use lcfg_core.Package.Version.Segments.{
  sign, then_by, rank, prefix, after_prefix, compare_prefix, IsText,
}

-- An outcome agrees with the order `o` of what was read, and stands at `a` and `b` if they are equal.
abbrev pub Agrees : Outcome → Ordering → Bytes → Bytes → Type 0
Agrees (stop d) o a b = (sign d ≡ o) × (o ≢ Ordering.eq)
Agrees (go a' b') o a b = (o ≡ Ordering.eq) × (a' ≡ a) × (b' ≡ b)

pub Agrees-stop :
    (d : ℤ) (c o : Ordering) (a b : Bytes)
    → sign d ≡ c
    → c ≢ Ordering.eq
    → Agrees (stop d) (then_by c o) a b
Agrees-stop d Ordering.lt o a b e n = (e, n)
Agrees-stop d Ordering.gt o a b e n = (e, n)
Agrees-stop d Ordering.eq o a b e n = absurd (n refl)

Agrees-if :
    (t : Bool) (d : ℤ) (c o : Ordering) (rest : Outcome) (a b : Bytes)
    → (t ≡ true → c ≡ Ordering.eq)
    → (t ≡ false → c ≢ Ordering.eq)
    → sign d ≡ c
    → Agrees rest o a b
    → Agrees (if t then rest else stop d) (then_by c o) a b
Agrees-if true d c o rest a b h k e r = rw (h refl) r
Agrees-if false d c o rest a b h k e r = Agrees-stop d c o a b e (k refl)

sign-order : (x y : ℕ) → sign (order x -ℤ order y) ≡ compare (rank x) (rank y)
unfolding order rank ◌-ℤ◌
sign-order x y = ground arith

same-rank : (x y : ℕ) → same (order x) (order y) ≡ true → compare (rank x) (rank y) ≡ Ordering.eq
unfolding order rank same
same-rank x y h = ground arith

not_same-rank :
    (x y : ℕ) → same (order x) (order y) ≡ false → compare (rank x) (rank y) ≢ Ordering.eq
unfolding order rank same
not_same-rank x y h = ground arith

rank-digit : (x : ℕ) → is_digit x ≡ true → rank x ≡ 1
unfolding order rank
rank-digit x h = ground arith

rank-zero : rank 0 ≡ 1
unfolding order rank
rank-zero = refl

rank_ne : (x : ℕ) → is_digit x ≡ false → 0 < x → rank x ≢ 1
unfolding order rank
rank_ne x h p = ground arith

module _ (x y : ℕ) (px : 0 < x) (py : 0 < y) where
  digit_first : is_digit x ≡ true → is_digit y ≡ false → same (order x) (order y) ≡ false
  unfolding order same is_alpha
  digit_first dx dy = ground arith

  digit_second : is_digit x ≡ false → is_digit y ≡ true → same (order x) (order y) ≡ false
  unfolding order same is_alpha
  digit_second dx dy = ground arith

same_end : (y : ℕ) → 0 < y → is_digit y ≡ false → same (order 0) (order y) ≡ false
unfolding order same is_alpha
same_end y py dy = ground arith

same_end_right : (x : ℕ) → 0 < x → is_digit x ≡ false → same (order x) (order 0) ≡ false
unfolding order same is_alpha
same_end_right x px dx = ground arith

-- The loop returns at the first pair of ranks that differ.
differs :
    (x y r s : ℕ) (o : Ordering)
    → rank x ≡ r
    → rank y ≡ s
    → same (order x) (order y) ≡ false
    → Agrees (stop (order x -ℤ order y)) (then_by (compare r s) o) [] []
differs x y r s o ex ey h =
    rw (← ex, ← ey)
      (Agrees-stop (order x -ℤ order y) (compare (rank x) (rank y)) o [] [] (sign-order x y)
        (not_same-rank x y h))

abbrev pub PrefixSpec : Bytes → Bytes → Type 0
PrefixSpec a b =
    Agrees (skip_prefix a b) (compare_prefix (prefix a) (prefix b)) (after_prefix a)
      (after_prefix b)

PrefixSpec-digits :
    (x y : ℕ) (a b : Bytes) → is_digit x ≡ true → is_digit y ≡ true → PrefixSpec (x ∷ a) (y ∷ b)
unfolding skip_prefix prefix after_prefix compare_prefix
PrefixSpec-digits x y a b dx dy = rw (dx, dy) (refl, refl, refl)

pub skip_prefix-PrefixSpec : (a b : Bytes) → IsText a → IsText b → PrefixSpec a b
unfolding skip_prefix prefix after_prefix compare_prefix
skip_prefix-PrefixSpec [] [] ta tb = (refl, refl, refl)
skip_prefix-PrefixSpec [] (y ∷ b) ta tb = elim (Bool-cases (is_digit y)) [
  | inl dy ↦ rw dy (refl, refl, refl)
  | inr dy ↦
      rw (dy, same_end y tb.0 dy) (differs 0 y 1 (rank y) _ rank-zero refl (same_end y tb.0 dy))
]
skip_prefix-PrefixSpec (x ∷ a) [] ta tb = elim (Bool-cases (is_digit x)) [
  | inl dx ↦ rw dx (refl, refl, refl)
  | inr dx ↦
      rw (dx, same_end_right x ta.0 dx)
        (differs x 0 (rank x) 1 _ refl rank-zero (same_end_right x ta.0 dx))
]
skip_prefix-PrefixSpec (x ∷ a) (y ∷ b) ta tb = elim (Bool-cases (is_digit x)) [
  | inl dx ↦ elim (Bool-cases (is_digit y)) [
    | inl dy ↦ PrefixSpec-digits x y a b dx dy
    | inr dy ↦
        rw (dx, dy, digit_first x y ta.0 tb.0 dx dy)
          (differs x y 1 (rank y) _ (rank-digit x dx) refl (digit_first x y ta.0 tb.0 dx dy))
  ]
  | inr dx ↦ elim (Bool-cases (is_digit y)) [
    | inl dy ↦
        rw (dx, dy, digit_second x y ta.0 tb.0 dx dy)
          (differs x y (rank x) 1 _ refl (rank-digit y dy) (digit_second x y ta.0 tb.0 dx dy))
    | inr dy ↦
        rw (dx, dy)
          (Agrees-if (same (order x) (order y)) _ _ _ _ _ _ (same-rank x y) (not_same-rank x y)
            (sign-order x y) (skip_prefix-PrefixSpec a b ta.1 tb.1))
  ]
]
