-- ===== src/Derivation/Lines.antt =====
-- The array of line numbers as a list: it grows in bounds, and a line is added at its end once.
use lcfg_core.Common.{
  ℕ, zero, suc, ◌+◌, ◌-◌, ◌^◌, ◌<◌, ◌≤◌, ◌≡◌, refl, ap, ◌∙◌, ◌%◌, Bool, true, false, not, ◌&&◌,
  ◌||◌, Option, none, some, List, [], ◌∷◌, ◌++◌, length, length-append, get_or, set, take, drop,
  replicate, ltb, ◌==◌, if◌then◌else◌, change_none, change_added, arith, Bool-cases, inl, inr,
}
use lcfg_core.Derivation.{
  Derivation, lines_given, array, find_line, has_line, wanted_size, grow, grown_size, add_line,
  merge_line, u32,
}

-- The lines in use.
unfoldable pub entries : Derivation → List ℕ
entries drv = take drv.lines_count (array drv.lines)

unfoldable pub contains : List ℕ → ℕ → Bool
contains [] line = false
contains (x ∷ xs) line = x == line || contains xs line

-- The array has the length that the structure records, and its entries fit.
pub record IsWellFormed (drv : Derivation) : Type 0 where
  pub sized : length (array drv.lines) ≡ drv.lines_size
  pub fits : drv.lines_count ≤ drv.lines_size
  pub bounded : drv.lines_size < u32

pub take-drop-suc :
    (left i : ℕ) (a : List ℕ)
    → i < length a
    → take (suc left) (drop i a) ≡ get_or a i 0 ∷ take left (drop (suc i) a)
take-drop-suc left i [] h = elim h [ ]
take-drop-suc left zero (x ∷ a) h = refl
take-drop-suc left (suc i) (x ∷ a) h = take-drop-suc left i a (omega arith)

pub drop-suc : (i : ℕ) (a : List ℕ) → drop (i + 1) a ≡ drop (suc i) a
drop-suc i a = let e : i + 1 ≡ suc i = omega arith in rw e

find_line-contains :
    (left i : ℕ) (a : List ℕ) (line : ℕ)
    → i + left ≤ length a
    → find_line left i a line ≡ contains (take left (drop i a)) line
unfolding find_line contains
find_line-contains zero i a line h = refl
find_line-contains (suc left) i a line h = rw (
  take-drop-suc left i a (omega arith),
  ← drop-suc i a,
  find_line-contains left (i + 1) a line (omega arith),
)

-- `has_line` of the parts that it reads.
has_line-parts :
    (lines : Option (List ℕ)) (count line : ℕ)
    → count ≤ length (array lines)
    → (if not (lines_given lines && ltb 0 count)
        then false
        else find_line count 0 (array lines) line)
      ≡ contains (take count (array lines)) line
unfolding contains
has_line-parts none zero line h = refl
has_line-parts none (suc n) line h = elim h [ ]
has_line-parts (some a) zero line h = refl
has_line-parts (some a) (suc n) line h =
    let positive : ltb 0 (suc n) ≡ true = ground arith in
    rw positive (find_line-contains (suc n) 0 a line (omega arith))

pub has_line-contains :
    (drv : Derivation) (line : ℕ)
    → IsWellFormed drv
    → has_line drv line ≡ contains (entries drv) line
unfolding has_line entries
has_line-contains drv line w = has_line-parts drv.lines drv.lines_count line (omega arith)

take-set : (a : List ℕ) (n v : ℕ) → n < length a → take (suc n) (set a n v) ≡ take n a ++ (v ∷ [])
take-set [] n v h = elim h [ ]
take-set (x ∷ a) zero v h = refl
take-set (x ∷ a) (suc n) v h = ap (◌∷◌ x) (take-set a n v (omega arith))

take-append : (n : ℕ) (a b : List ℕ) → n ≤ length a → take n (a ++ b) ≡ take n a
take-append zero a b h = refl
take-append (suc n) [] b h = elim h [ ]
take-append (suc n) (x ∷ a) b h = ap (◌∷◌ x) (take-append n a b (omega arith))

length-set : (a : List ℕ) (n v : ℕ) → length (set a n v) ≡ length a
length-set [] n v = refl
length-set (x ∷ a) zero v = refl
length-set (x ∷ a) (suc n) v = ap suc (length-set a n v)

length-replicate : (n v : ℕ) → length (replicate n v) ≡ n
length-replicate zero v = refl
length-replicate (suc n) v = ap suc (length-replicate n v)

length-grow :
    (lines : Option (List ℕ)) (size new_size : ℕ)
    → length (array lines) ≡ size
    → length (array (grow lines size new_size)) ≡ grown_size lines size new_size
unfolding grow grown_size
length-grow none size new_size h = length-replicate new_size 0
length-grow (some a) size new_size h =
    ground
      (arith, length-append a (replicate (new_size - size) 0), length-replicate (new_size - size) 0)

take-grow :
    (lines : Option (List ℕ)) (size new_size count : ℕ)
    → length (array lines) ≡ size
    → count ≤ size
    → take count (array (grow lines size new_size)) ≡ take count (array lines)
unfolding grow
take-grow none size new_size zero h k = refl
take-grow none size new_size (suc n) h k = absurd (omega arith)
take-grow (some a) size new_size count h k =
    ground (arith, take-append count a (replicate (new_size - size) 0))

-- Below 2^31 entries the doubling does not wrap.
abbrev pub max_lines : ℕ
max_lines = 2 ^ 31

lt-grown_size :
    (lines : Option (List ℕ)) (size count : ℕ)
    → length (array lines) ≡ size
    → count ≤ size
    → count < max_lines
    → size < u32
    → count < grown_size lines size (wanted_size lines size count)
unfolding grown_size wanted_size
lt-grown_size none size count h k m b = omega arith
lt-grown_size (some a) size count h k m b = ground arith

grown_size-lt :
    (lines : Option (List ℕ)) (size count : ℕ)
    → size < u32
    → grown_size lines size (wanted_size lines size count) < u32
unfolding grown_size wanted_size
grown_size-lt none size count h = omega arith
grown_size-lt (some a) size count h = ground arith

-- The array that `add_line` writes to.
abbrev room : Derivation → List ℕ
room drv =
    array (grow drv.lines drv.lines_size (wanted_size drv.lines drv.lines_size drv.lines_count))

module _ (drv : Derivation) (line : ℕ) (w : IsWellFormed drv)
    (m : drv.lines_count < max_lines) where
  length-room :
      length (room drv)
      ≡ grown_size drv.lines drv.lines_size (wanted_size drv.lines drv.lines_size drv.lines_count)
  length-room = length-grow drv.lines drv.lines_size _ w.sized

  lt-length-room : drv.lines_count < length (room drv)
  lt-length-room =
      rw length-room
        (lt-grown_size drv.lines drv.lines_size drv.lines_count w.sized w.fits m w.bounded)

  count_step : (drv.lines_count + 1) % u32 ≡ suc drv.lines_count
  count_step = omega arith

  pub add_line-entries : entries (add_line drv line) ≡ entries drv ++ (line ∷ [])
  unfolding entries add_line
  add_line-entries = rw count_step (
      take-set (room drv) drv.lines_count line lt-length-room
      ∙ ap (λ (t : List ℕ). t ++ (line ∷ []))
          (take-grow drv.lines drv.lines_size _ drv.lines_count w.sized w.fits))

  pub add_line-IsWellFormed : IsWellFormed (add_line drv line)
  unfolding add_line
  add_line-IsWellFormed = record {
    sized = length-set (room drv) drv.lines_count line ∙ length-room;
    fits = omega (arith, count_step, lt-length-room, length-room);
    bounded = grown_size-lt drv.lines drv.lines_size drv.lines_count w.bounded;
  }

-- The lines of a derivation behind the merge of one more line: they are as before if the line is
-- there, and it stands behind them if it is not. The array stays well formed.
pub merge_line-entries :
    (drv : Derivation) (line : ℕ)
    → IsWellFormed drv
    → drv.lines_count < max_lines
    → IsWellFormed (merge_line drv line).0
      × (entries (merge_line drv line).0
          ≡ (if contains (entries drv) line then entries drv else entries drv ++ (line ∷ [])))
      × ((merge_line drv line).1
          ≡ (if contains (entries drv) line then change_none else change_added))
unfolding merge_line
merge_line-entries drv line w m =
    rw (has_line-contains drv line w) (elim (Bool-cases (contains (entries drv) line)) [
      | inl old ↦ rw old (w, refl, refl)
      | inr new ↦ rw new (add_line-IsWellFormed drv line w m, add_line-entries drv line w m, refl)
    ])
