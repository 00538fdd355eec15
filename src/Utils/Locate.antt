-- ===== src/Utils/Locate.antt =====
-- The position that lcfgutils_string_finditem returns: utils/utils.c.
use lcfg_core.Common.{
  ℕ, zero, suc, ◌+◌, ◌≡◌, refl, ◌∙◌, true, ◌&&◌, Option, none, some, [], ◌∷◌, Bytes, length, drop,
  Bool-cases, Option-cases, inl, inr, starts_with, Position, strstr, rejoin,
}
use lcfg_core.Utils.{advance, is_start, is_end, check_item, behind, find_loop, finditem}
use lcfg_core.Utils.Scan.{and_left, and_right}

-- An item stands at the position, in the given text.
pub record IsLocated (needle separator text : Bytes) (p : Position) : Type 0 where
  pub whole : rejoin p.0 p.1 ≡ text
  pub starts : starts_with needle p.1 ≡ true
  pub start : is_start separator p.0 ≡ true
  pub end : is_end separator (drop (length needle) p.1) ≡ true

advance-rejoin :
    (n : ℕ) (p s : Bytes) → rejoin (advance n (p, s)).0 (advance n (p, s)).1 ≡ rejoin p s
unfolding advance rejoin
advance-rejoin zero p s = refl
advance-rejoin (suc n) p [] = refl
advance-rejoin (suc n) p (c ∷ s) = advance-rejoin n (c ∷ p) s

no_position : (p : Position) → ◌≡◌ {A = Option Position} none (some p) → ⊥
no_position p h = cc

some_injective : (p q : Position) → ◌≡◌ {A = Option Position} (some p) (some q) → p ≡ q
some_injective p q h = cc

-- What `strstr` finds.
abbrev IsMatch : Bytes → Bytes → Position → Type 0
IsMatch needle text p = (rejoin p.0 p.1 ≡ text) × (starts_with needle p.1 ≡ true)

strstr-IsMatch :
    (needle p s : Bytes) (q : Position) → strstr needle p s ≡ some q → IsMatch needle (rejoin p s) q
unfolding strstr rejoin
strstr-IsMatch needle p [] q h = elim (Bool-cases (starts_with needle [])) [
  | inl e ↦ rw (← some_injective (p, []) q (rw e at h)) (refl, e)
  | inr e ↦ absurd (no_position q (rw e at h))
]
strstr-IsMatch needle p (c ∷ s) q h = elim (Bool-cases (starts_with needle (c ∷ s))) [
  | inl e ↦ rw (← some_injective (p, c ∷ s) q (rw e at h)) (refl, e)
  | inr e ↦ strstr-IsMatch needle (c ∷ p) s q (rw e at h)
]

check-IsLocated :
    (needle separator text : Bytes) (p : Position) (later : Option Position) (q : Position)
    → IsMatch needle text p
    → check_item needle separator (some p) later ≡ some q
    → (later ≡ some q → IsLocated needle separator text q)
    → IsLocated needle separator text q
unfolding check_item
check-IsLocated needle separator text (a, b) later q (w, s) h go =
    let test = is_start separator a && is_end separator (drop (length needle) b) in
    elim (Bool-cases test) [
      | inl e ↦ rw (← some_injective (a, b) q (rw e at h)) (record {
        whole = w;
        starts = s;
        start = and_left (is_start separator a) (is_end separator (drop (length needle) b)) e;
        end = and_right (is_start separator a) (is_end separator (drop (length needle) b)) e;
      })
      | inr e ↦ go (rw e at h)
    ]

same-IsLocated :
    (needle separator : Bytes) {s t : Bytes} (q : Position)
    → s ≡ t
    → IsLocated needle separator s q
    → IsLocated needle separator t q
same-IsLocated needle separator q e l = record {
  whole = l.whole ∙ e;
  starts = l.starts;
  start = l.start;
  end = l.end;
}

find_loop-IsLocated :
    (fuel : ℕ) (needle separator p s : Bytes) (q : Position)
    → find_loop fuel needle separator (p, s) ≡ some q
    → IsLocated needle separator (rejoin p s) q
unfolding find_loop behind
find_loop-IsLocated zero needle separator p s q h = absurd (no_position q h)
find_loop-IsLocated (suc fuel) needle separator p s q h = elim (Option-cases (strstr needle p s)) [
  | inl e ↦ absurd (no_position q (rw e at h))
  | inr ((a, b), e) ↦
      let m = strstr-IsMatch needle p s (a, b) e in
      check-IsLocated needle separator (rejoin p s) (a, b)
        (find_loop fuel needle separator (advance (length needle) (a, b))) q m (rw e at h)
        (λ k. same-IsLocated needle separator q (advance-rejoin (length needle) a b ∙ m.0) (
          find_loop-IsLocated fuel needle separator (advance (length needle) (a, b)).0
            (advance (length needle) (a, b)).1 q k))
]

-- The position that is found in a text that is not empty.
pub finditem-IsLocated :
    (needle : Bytes) (d : ℕ) (separator : Bytes) (c : ℕ) (s : Bytes) (q : Position)
    → finditem (some (c ∷ s)) needle (d ∷ separator) ≡ some q
    → IsLocated needle (d ∷ separator) (c ∷ s) q
unfolding finditem rejoin
finditem-IsLocated needle d separator c s q h =
    find_loop-IsLocated (length (c ∷ s) + 1) needle (d ∷ separator) [] (c ∷ s) q h
