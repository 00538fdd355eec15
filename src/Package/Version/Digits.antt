-- ===== src/Package/Version/Digits.antt =====
-- The loop over the digits compares the numbers that the digits stand for.
use Prim.Native.Nat.{compare, Ordering}
use lcfg_core.Common.{
  ℕ, ◌+◌, ◌-◌, ◌*◌, ◌<◌, ◌≤◌, ◌≡◌, ◌≢◌, ◌⊎◌, inl, inr, refl, true, false, ◌&&◌, [], ◌∷◌, Bytes, ℤ,
  pos, sub_ℕ, is_digit, deref, arith, if◌then◌else◌, Bool-cases,
}
use lcfg_core.Package.Version.{same, Outcome, go, after_digits, digits_loop, skip_zeros, numbers}
use lcfg_core.Package.Version.Segments.{sign, value, after_number}
use lcfg_core.Package.Version.Prefix.{Agrees}

le-value : (acc : ℕ) (s : Bytes) → acc ≤ value acc s
unfolding value
le-value acc [] = omega arith
le-value acc (c ∷ s) = ground (arith, le-value (acc * 10 + (c - b'0')) s)

step-le-value :
    (acc c : ℕ) (s : Bytes) → is_digit c ≡ true → acc * 10 + (c - b'0') ≤ value acc (c ∷ s)
unfolding value
step-le-value acc c s h = rw h (le-value _ s)

value_stop : (acc : ℕ) (s : Bytes) → is_digit (deref s) ≡ false → value acc s ≡ acc
unfolding value
value_stop acc [] h = refl
value_stop acc (c ∷ s) h = rw h

after_number_stop : (s : Bytes) → is_digit (deref s) ≡ false → after_number s ≡ s
unfolding after_number
after_number_stop [] h = refl
after_number_stop (c ∷ s) h = rw h

-- The digits read so far: as many on both sides, with no zero in front.
abbrev Balanced : ℕ → ℕ → Bytes → Bytes → Type 0
Balanced va vb a b =
    ((va < 10 * vb) × (vb < 10 * va)) ⊎ ((va ≡ 0) × (vb ≡ 0) × (deref a ≢ b'0') × (deref b ≢ b'0'))

digit_range : (c : ℕ) → is_digit c ≡ true → (b'0' ≤ c) × (c ≤ b'9')
unfolding is_digit
digit_range c h = ground arith

longer_left :
    (va vb x : ℕ) (a b : Bytes)
    → is_digit x ≡ true
    → is_digit (deref b) ≡ false
    → Balanced va vb (x ∷ a) b
    → value vb b < value va (x ∷ a)
longer_left va vb x a b dx db h =
    ground (arith, step-le-value va x a dx, value_stop vb b db, digit_range x dx)

longer_right :
    (va vb y : ℕ) (a b : Bytes)
    → is_digit (deref a) ≡ false
    → is_digit y ≡ true
    → Balanced va vb a (y ∷ b)
    → value va a < value vb (y ∷ b)
longer_right va vb y a b da dy h =
    ground (arith, step-le-value vb y b dy, value_stop va a da, digit_range y dy)

sign-ne-zero : (d : ℤ) → same d (pos 0) ≡ false → sign d ≢ Ordering.eq
unfolding same
sign-ne-zero d h = ground arith

sign-zero : (d : ℤ) → same d (pos 0) ≡ true → sign d ≡ Ordering.eq
unfolding same
sign-zero d h = ground arith

compare_gt : (m n : ℕ) → n < m → compare m n ≡ Ordering.gt
compare_gt m n h = ground arith

compare_lt : (m n : ℕ) → m < n → compare m n ≡ Ordering.lt
compare_lt m n h = ground arith

abbrev DigitsSpec : ℕ → ℕ → Outcome → Bytes → Bytes → Type 0
DigitsSpec va vb o a b =
    Agrees o (compare (value va a) (value vb b)) (after_number a) (after_number b)

-- Both numbers have ended: the first difference decides.
both_ended :
    (d : ℤ) (va vb : ℕ) (a b : Bytes)
    → is_digit (deref a) ≡ false
    → is_digit (deref b) ≡ false
    → sign d ≡ compare va vb
    → DigitsSpec va vb (after_digits d a b) a b
both_ended d va vb a b da db e =
    rw
      (
        value_stop va a da,
        value_stop vb b db,
        after_number_stop a da,
        after_number_stop b db,
        da,
        db,
        ← e,
      )
      (elim (Bool-cases (same d (pos 0))) [
        | inl z ↦ rw z (sign-zero d z, refl, refl)
        | inr n ↦ rw n (refl, sign-ne-zero d n)
      ])

left_ended :
    (d : ℤ) (va vb y : ℕ) (a b : Bytes)
    → is_digit (deref a) ≡ false
    → is_digit y ≡ true
    → Balanced va vb a (y ∷ b)
    → DigitsSpec va vb (after_digits d a (y ∷ b)) a (y ∷ b)
left_ended d va vb y a b da dy h =
    rw (da, dy, compare_lt _ _ (longer_right va vb y a b da dy h)) (refl, cc)

right_ended :
    (d : ℤ) (va vb x : ℕ) (a b : Bytes)
    → is_digit x ≡ true
    → is_digit (deref b) ≡ false
    → Balanced va vb (x ∷ a) b
    → DigitsSpec va vb (after_digits d (x ∷ a) b) (x ∷ a) b
right_ended d va vb x a b dx db h =
    rw (dx, compare_gt _ _ (longer_left va vb x a b dx db h)) (refl, cc)

-- One more digit on both sides.
module _ (d : ℤ) (va vb x y : ℕ) (a b : Bytes) (dx : is_digit x ≡ true)
    (dy : is_digit y ≡ true) where
  Balanced-step :
      Balanced va vb (x ∷ a) (y ∷ b) → Balanced (va * 10 + (x - b'0')) (vb * 10 + (y - b'0')) a b
  Balanced-step h = inl (ground (arith, digit_range x dx, digit_range y dy))

  sign-step :
      sign d ≡ compare va vb
      → sign (if same d (pos 0) then sub_ℕ x y else d)
        ≡ compare (va * 10 + (x - b'0')) (vb * 10 + (y - b'0'))
  unfolding same sub_ℕ
  sign-step e = ground (arith, digit_range x dx, digit_range y dy)

loop_ends :
    (d : ℤ) (x y : ℕ) (a b : Bytes)
    → (is_digit x && is_digit y) ≡ false
    → digits_loop d (x ∷ a) (y ∷ b) ≡ after_digits d (x ∷ a) (y ∷ b)
unfolding digits_loop
loop_ends d x y a b h = rw h

value-digit :
    (acc c : ℕ) (s : Bytes)
    → is_digit c ≡ true
    → value acc (c ∷ s) ≡ value (acc * 10 + (c - b'0')) s
unfolding value
value-digit acc c s h = rw h

after_number-digit : (c : ℕ) (s : Bytes) → is_digit c ≡ true → after_number (c ∷ s) ≡ after_number s
unfolding after_number
after_number-digit c s h = rw h

not_digit_end : is_digit (deref []) ≡ false
unfolding is_digit
not_digit_end = refl

pub digits_loop-Agrees :
    (d : ℤ) (va vb : ℕ) (a b : Bytes)
    → sign d ≡ compare va vb
    → Balanced va vb a b
    → DigitsSpec va vb (digits_loop d a b) a b
unfolding digits_loop
digits_loop-Agrees d va vb [] [] e h = both_ended d va vb [] [] not_digit_end not_digit_end e
digits_loop-Agrees d va vb [] (y ∷ b) e h = elim (Bool-cases (is_digit y)) [
  | inl dy ↦ left_ended d va vb y [] b not_digit_end dy h
  | inr dy ↦ both_ended d va vb [] (y ∷ b) not_digit_end dy e
]
digits_loop-Agrees d va vb (x ∷ a) [] e h = elim (Bool-cases (is_digit x)) [
  | inl dx ↦ right_ended d va vb x a [] dx not_digit_end h
  | inr dx ↦ both_ended d va vb (x ∷ a) [] dx not_digit_end e
]
digits_loop-Agrees d va vb (x ∷ a) (y ∷ b) e h = elim (Bool-cases (is_digit x)) [
  | inl dx ↦ elim (Bool-cases (is_digit y)) [
    | inl dy ↦
        rw (dx, dy, value-digit va x a dx, value-digit vb y b dy)
          (rw (after_number-digit x a dx, after_number-digit y b dy)
            (digits_loop-Agrees (if same d (pos 0) then sub_ℕ x y else d) (va * 10 + (x - b'0'))
              (vb * 10 + (y - b'0')) a b (sign-step d va vb x y a b dx dy e)
              (Balanced-step d va vb x y a b dx dy h)))
    | inr dy ↦ rw (loop_ends d x y a b (rw (dx, dy))) (right_ended d va vb x a (y ∷ b) dx dy h)
  ]
  | inr dx ↦ rw (loop_ends d x y a b (rw dx)) (elim (Bool-cases (is_digit y)) [
    | inl dy ↦ left_ended d va vb y (x ∷ a) b dx dy h
    | inr dy ↦ both_ended d va vb (x ∷ a) (y ∷ b) dx dy e
  ])
]

value-skip_zeros : (s : Bytes) → value 0 (skip_zeros s) ≡ value 0 s
unfolding value skip_zeros is_digit
value-skip_zeros [] = refl
value-skip_zeros (c ∷ s) = ground (arith, value-skip_zeros s)

after_number-skip_zeros : (s : Bytes) → after_number (skip_zeros s) ≡ after_number s
unfolding after_number skip_zeros is_digit
after_number-skip_zeros [] = refl
after_number-skip_zeros (c ∷ s) = ground (arith, after_number-skip_zeros s)

skip_zeros-ne : (s : Bytes) → deref (skip_zeros s) ≢ b'0'
unfolding skip_zeros
skip_zeros-ne [] = omega arith
skip_zeros-ne (c ∷ s) = ground (arith, skip_zeros-ne s)

-- The part of the loop body behind the first inner loop.
pub numbers-Agrees :
    (a b : Bytes)
    → Agrees (numbers (go a b)) (compare (value 0 a) (value 0 b)) (after_number a) (after_number b)
numbers-Agrees a b =
    rw
      (
        ← value-skip_zeros a,
        ← value-skip_zeros b,
        ← after_number-skip_zeros a,
        ← after_number-skip_zeros b,
      )
      (digits_loop-Agrees (pos 0) 0 0 (skip_zeros a) (skip_zeros b) refl
        (inr (refl, refl, skip_zeros-ne a, skip_zeros-ne b)))
