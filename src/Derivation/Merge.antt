-- ===== src/Derivation/Merge.antt =====
-- Merging the lines of one derivation into another is the union of the lines.
use lcfg_core.Common.{
  ℕ, zero, suc, ◌+◌, ◌<◌, ◌≤◌, ◌≡◌, refl, ap, ◌∙◌, inl, inr, Bool, true, false, ◌&&◌, ◌||◌, List,
  [], ◌∷◌, ◌++◌, length, get_or, take, drop, ltb, ◌==◌, if◌then◌else◌, Change, change_none,
  change_added, change_modified, change_ok, arith, Bool-cases, none, some, Option,
}
use lcfg_core.Derivation.{
  Derivation, array, lines_given, has_line, has_lines, merge_line, merge_change, merge_lines_loop,
  merge_lines,
}
use lcfg_core.Derivation.Lines.{
  entries, contains, IsWellFormed, take-drop-suc, drop-suc, has_line-contains, merge_line-entries,
  max_lines,
}

-- The lines `ys` added one by one to `xs`, each one only once.
unfoldable pub add_all : List ℕ → List ℕ → List ℕ
add_all xs [] = xs
add_all xs (y ∷ ys) = add_all (if contains xs y then xs else xs ++ (y ∷ [])) ys

unfoldable pub contains_all : List ℕ → List ℕ → Bool
contains_all xs [] = true
contains_all xs (y ∷ ys) = contains xs y && contains_all xs ys

contains-append :
    (xs ys : List ℕ) (l : ℕ) → contains (xs ++ ys) l ≡ (contains xs l || contains ys l)
unfolding contains
contains-append [] ys l = refl
contains-append (x ∷ xs) ys l = ground (arith, contains-append xs ys l)

same_line : (xs : List ℕ) (y l : ℕ) → contains xs y ≡ true → (y == l) ≡ true → contains xs l ≡ true
same_line xs y l h e = let e' : y ≡ l = ground arith in rw (← e') h

contains-add_one :
    (xs ys : List ℕ) (y l : ℕ)
    → (contains (if contains xs y then xs else xs ++ (y ∷ [])) l || contains ys l)
      ≡ (contains xs l || contains (y ∷ ys) l)
unfolding contains
contains-add_one xs ys y l = elim (Bool-cases (contains xs y)) [
  | inl old ↦ rw old (ground (arith, old, same_line xs y l))
  | inr new ↦ rw (new, contains-append xs (y ∷ []) l) (ground arith)
]

pub contains-add_all :
    (ys xs : List ℕ) (l : ℕ) → contains (add_all xs ys) l ≡ (contains xs l || contains ys l)
unfolding add_all contains
contains-add_all [] xs l = ground arith
contains-add_all (y ∷ ys) xs l =
    contains-add_all ys (if contains xs y then xs else xs ++ (y ∷ [])) l
    ∙ contains-add_one xs ys y l

merge_line-count :
    (drv : Derivation) (line : ℕ) → (merge_line drv line).0.lines_count ≤ drv.lines_count + 1
unfolding merge_line
merge_line-count drv line = elim (Bool-cases (has_line drv line)) [
  | inl old ↦ rw old (omega arith)
  | inr new ↦ rw new (omega arith)
]

-- Adding a line never fails.
merge_change_ok :
    (b : Bool) (change : Change)
    → change_ok change ≡ true
    → change_ok (merge_change change (if b then change_none else change_added)) ≡ true
merge_change_ok true change h = h
merge_change_ok false change h = refl

still_modified :
    (b : Bool)
    → merge_change change_modified (if b then change_none else change_added) ≡ change_modified
still_modified true = refl
still_modified false = refl

module _ (a : List ℕ) where
  loop-entries :
      (left i : ℕ) (drv : Derivation) (change : Change)
      → change_ok change ≡ true
      → IsWellFormed drv
      → i + left ≤ length a
      → drv.lines_count + left < max_lines
      → IsWellFormed (merge_lines_loop left i a drv change).0
        × (entries (merge_lines_loop left i a drv change).0
            ≡ add_all (entries drv) (take left (drop i a)))
  unfolding merge_lines_loop add_all
  loop-entries zero i drv change ok w h m = (w, refl)
  loop-entries (suc left) i drv change ok w h m =
      let line = get_or a i 0 in
      let (w', e, c) = merge_line-entries drv line w (omega arith) in
      let (w'', e') =
        loop-entries left (i + 1) (merge_line drv line).0
          (merge_change change (merge_line drv line).1)
          (rw c (merge_change_ok (contains (entries drv) line) change ok)) w' (omega arith)
          (omega (arith, merge_line-count drv line)) in
      rw (ok, take-drop-suc left i a (omega arith), ← drop-suc i a)
        (w'', e' ∙ ap (λ (xs : List ℕ). add_all xs (take left (drop (i + 1) a))) e)

  loop-modified :
      (left i : ℕ) (drv : Derivation)
      → IsWellFormed drv
      → i + left ≤ length a
      → drv.lines_count + left < max_lines
      → (merge_lines_loop left i a drv change_modified).1 ≡ change_modified
  unfolding merge_lines_loop
  loop-modified zero i drv w h m = refl
  loop-modified (suc left) i drv w h m =
      let line = get_or a i 0 in
      let (w', e, c) = merge_line-entries drv line w (omega arith) in
      rw (c, still_modified (contains (entries drv) line))
        (loop-modified left (i + 1) (merge_line drv line).0 w' (omega arith)
          (omega (arith, merge_line-count drv line)))

  loop-change :
      (left i : ℕ) (drv : Derivation)
      → IsWellFormed drv
      → i + left ≤ length a
      → drv.lines_count + left < max_lines
      → (merge_lines_loop left i a drv change_none).1 ≡ (
          if contains_all (entries drv) (take left (drop i a))
          then change_none
          else change_modified)
  unfolding merge_lines_loop contains_all
  loop-change zero i drv w h m = refl
  loop-change (suc left) i drv w h m =
      let line = get_or a i 0 in
      let (w', e, c) = merge_line-entries drv line w (omega arith) in
      let room : (merge_line drv line).0.lines_count + left < max_lines =
        omega (arith, merge_line-count drv line) in
      rw (c, take-drop-suc left i a (omega arith), ← drop-suc i a)
        (elim (Bool-cases (contains (entries drv) line)) [
          | inl old ↦ rw old (
              loop-change left (i + 1) (merge_line drv line).0 w' (omega arith) room
              ∙ ap
                  (λ (xs : List ℕ).
                    if contains_all xs (take left (drop (i + 1) a))
                    then change_none
                    else change_modified)
                  (rw old at e))
          | inr new ↦
              rw new (loop-modified left (i + 1) (merge_line drv line).0 w' (omega arith) room)
        ])

-- Without lines there are no entries.
parts_nil :
    (lines : Option (List ℕ)) (count : ℕ)
    → (lines_given lines && ltb 0 count) ≡ false
    → take count (array lines) ≡ []
parts_nil none zero h = refl
parts_nil none (suc n) h = refl
parts_nil (some a) zero h = refl
parts_nil (some a) (suc n) h = absurd (ground arith)

entries_nil : (drv : Derivation) → has_lines drv ≡ false → entries drv ≡ []
unfolding entries has_lines
entries_nil drv h = parts_nil drv.lines drv.lines_count h

module _ (drv1 drv2 r : Derivation) (w1 : IsWellFormed drv1) (w2 : IsWellFormed drv2) where
  has_line-union :
      IsWellFormed r
      → entries r ≡ add_all (entries drv1) (entries drv2)
      → (line : ℕ) → has_line r line ≡ (has_line drv1 line || has_line drv2 line)
  has_line-union w e line =
      rw
        (
          has_line-contains r line w,
          has_line-contains drv1 line w1,
          has_line-contains drv2 line w2,
          e,
        )
        (contains-add_all (entries drv2) (entries drv1) line)

-- The union of the lines. It is formed in bounds, each line of either derivation is there, no other
-- is, and the result says whether the second derivation had a line that the first had not.
pub merge_lines-union :
    (drv1 drv2 : Derivation)
    → IsWellFormed drv1
    → IsWellFormed drv2
    → drv1.lines_count + drv2.lines_count < max_lines
    → IsWellFormed (merge_lines drv1 drv2).0
      × ((line : ℕ)
          → has_line (merge_lines drv1 drv2).0 line ≡ (has_line drv1 line || has_line drv2 line))
      × ((merge_lines drv1 drv2).1
          ≡ (if contains_all (entries drv1) (entries drv2) then change_none else change_modified))
unfolding merge_lines entries add_all contains_all
merge_lines-union drv1 drv2 w1 w2 m = elim (Bool-cases (has_lines drv2)) [
  | inl given ↦
      let a = array drv2.lines in
      let n = drv2.lines_count in
      let (w, e) = loop-entries a n 0 drv1 change_none refl w1 (omega arith) m in
      rw given (
        w,
        has_line-union drv1 drv2 (merge_lines_loop n 0 a drv1 change_none).0 w1 w2 w e,
        loop-change a n 0 drv1 w1 (omega arith) m,
      )
  | inr empty ↦
      let e = entries_nil drv2 empty in
      rw (empty, e) (w1, has_line-union drv1 drv2 drv1 w1 w2 w1 (rw e), refl)
]
