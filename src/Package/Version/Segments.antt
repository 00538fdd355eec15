-- ===== src/Package/Version/Segments.antt =====
-- An independent description of the version order: a version is read as pieces, a run of other
-- bytes and the number behind it, and versions are compared piece by piece.
use Prim.Native.Nat.{compare, Ordering}
use lcfg_core.Common.{
  ℕ, zero, suc, ◌+◌, ◌-◌, ◌*◌, ◌<◌, [], ◌∷◌, Bytes, ℤ, pos, negsuc, is_digit, if◌then◌else◌,
}
use lcfg_core.Package.Version.{order}

-- The sign of a C result.
abbrev pub sign : ℤ → Ordering
sign (pos zero) = Ordering.eq
sign (pos (suc n)) = Ordering.gt
sign (negsuc n) = Ordering.lt

-- The second order decides where the first finds no difference.
abbrev pub then_by : Ordering → Ordering → Ordering
then_by Ordering.lt o = Ordering.lt
then_by Ordering.eq o = o
then_by Ordering.gt o = Ordering.gt

-- The rank of a byte outside a number: `~`, then the end of the run, then the rest.
unfoldable pub rank : ℕ → ℕ
unfolding order
rank c = elim (order c) [ pos n ↦ suc n | negsuc n ↦ 0 ]

-- The run of bytes in front of the first digit, and what follows it.
unfoldable pub prefix : Bytes → Bytes
prefix [] = []
prefix (c ∷ s) = if is_digit c then [] else c ∷ prefix s

unfoldable pub after_prefix : Bytes → Bytes
after_prefix [] = []
after_prefix (c ∷ s) = if is_digit c then c ∷ s else after_prefix s

-- Two runs, the shorter one continued by ends.
unfoldable pub compare_prefix : Bytes → Bytes → Ordering
compare_prefix [] [] = Ordering.eq
compare_prefix [] (y ∷ b) = then_by (compare 1 (rank y)) (compare_prefix [] b)
compare_prefix (x ∷ a) [] = then_by (compare (rank x) 1) (compare_prefix a [])
compare_prefix (x ∷ a) (y ∷ b) = then_by (compare (rank x) (rank y)) (compare_prefix a b)

-- No NUL stands inside a text.
abbrev pub IsText : Bytes → Type 0
IsText [] = Unit
IsText (c ∷ s) = (0 < c) × IsText s

-- The number in front of a text, and what follows it.
unfoldable pub value : ℕ → Bytes → ℕ
value acc [] = acc
value acc (c ∷ s) = if is_digit c then value (acc * 10 + (c - b'0')) s else acc

unfoldable pub after_number : Bytes → Bytes
after_number [] = []
after_number (c ∷ s) = if is_digit c then after_number s else c ∷ s

-- The rest of a version behind its first piece.
abbrev pub rest : Bytes → Bytes
rest s = after_number (after_prefix s)

-- The order of the first pieces.
abbrev pub compare_first : Bytes → Bytes → Ordering
compare_first a b =
    then_by (compare_prefix (prefix a) (prefix b))
      (compare (value 0 (after_prefix a)) (value 0 (after_prefix b)))

-- The order of two versions, piece by piece, up to a number of pieces.
unfoldable pub compare_pieces : ℕ → Bytes → Bytes → Ordering
compare_pieces zero a b = Ordering.eq
compare_pieces (suc n) a b = then_by (compare_first a b) (compare_pieces n (rest a) (rest b))
