-- ===== src/Derivation.antt =====
-- Derivations: common/derivation/derivation.c. A derivation names a file and the lines of it where
-- a resource or a package was changed. The line numbers stand in an array that grows on demand.
pub mod Lines
pub mod Merge
pub mod Store
pub mod Lists
pub mod Sharing
pub mod Tests
use lcfg_core.Common.{
  ℕ, zero, suc, ◌+◌, ◌-◌, ◌*◌, ◌%◌, ◌^◌, Bool, true, false, not, ◌&&◌, ◌||◌, Option, none, some,
  List, [], ◌∷◌, ◌++◌, Bytes, CString, is_empty, or_default, strcmp, ℤ, pos, negsuc, length, get_or,
  set, replicate, ltb, ◌==◌, is_zero, if◌then◌else◌, Change, change_error, change_none,
  change_modified, change_added, change_ok,
}

-- Arithmetic on `unsigned int`.
abbrev pub u32 : ℕ
u32 = 2 ^ 32

-- `LCFGDerivation`. A negative `length` means that it has to be computed again.
pub record Derivation : Type 0 where
  pub file : CString
  pub lines : Option (List ℕ)
  pub lines_size : ℕ
  pub lines_count : ℕ
  pub length : ℤ
  pub refcount : ℕ

-- `ResetLength`
abbrev pub unset_length : ℤ
unset_length = negsuc 0

-- `lcfgderivation_new`
unfoldable pub new : Derivation
new = record {
  file = none;
  lines = none;
  lines_size = 0;
  lines_count = 0;
  length = unset_length;
  refcount = 1;
}

-- `lcfgderivation_is_valid`, of a pointer that is not NULL.
unfoldable pub is_valid : Derivation → Bool
is_valid drv = not (is_empty drv.file)

-- `lcfgderivation_set_file`: any string is taken.
unfoldable pub set_file : Derivation → CString → Derivation
set_file drv new_value = record drv { file = new_value; length = unset_length }

abbrev pub lines_given : Option (List ℕ) → Bool
lines_given none = false
lines_given (some _) = true

-- `lcfgderivation_has_lines`
unfoldable pub has_lines : Derivation → Bool
has_lines drv = lines_given drv.lines && ltb 0 drv.lines_count

-- The array that `drv->lines` points to.
abbrev pub array : Option (List ℕ) → List ℕ
array none = []
array (some a) = a

-- `for (i=0; !found && i<count; i++) if (lines[i] == line) found = true;`, from index `i` on with
-- `left` entries to go.
unfoldable pub find_line : ℕ → ℕ → List ℕ → ℕ → Bool
find_line zero i a line = false
find_line (suc left) i a line = get_or a i 0 == line || find_line left (i + 1) a line

-- `lcfgderivation_has_line`
unfoldable pub has_line : Derivation → ℕ → Bool
unfolding has_lines find_line
has_line drv line =
    if not (has_lines drv) then false else find_line drv.lines_count 0 (array drv.lines) line

-- `new_size`: at first DEFAULT_LINES_SIZE, and then twice the size whenever the array is full.
unfoldable pub wanted_size : Option (List ℕ) → ℕ → ℕ → ℕ
wanted_size lines lines_size lines_count =
    let count = (lines_count + 1) % u32 in
    if not (lines_given lines) || lines_size == 0
    then 4
    else if ltb lines_size count
    then (2 * lines_size) % u32
    else count

-- `calloc`, or `realloc` with the new part of the array set to zero.
unfoldable pub grow : Option (List ℕ) → ℕ → ℕ → Option (List ℕ)
grow none size new_size = some (replicate new_size 0)
grow (some a) size new_size =
    if ltb size new_size then some (a ++ replicate (new_size - size) 0) else some a

-- `drv->lines_size` behind the allocation.
unfoldable pub grown_size : Option (List ℕ) → ℕ → ℕ → ℕ
grown_size none size new_size = new_size
grown_size (some a) size new_size = if ltb size new_size then new_size else size

-- The part of `lcfgderivation_merge_line` behind the test for the line.
unfoldable pub add_line : Derivation → ℕ → Derivation
add_line drv line =
    let new_size = wanted_size drv.lines drv.lines_size drv.lines_count in
    record drv {
      lines = some (set (array (grow drv.lines drv.lines_size new_size)) drv.lines_count line);
      lines_size = grown_size drv.lines drv.lines_size new_size;
      lines_count = (drv.lines_count + 1) % u32;
      length = unset_length;
    }

-- `lcfgderivation_merge_line`
unfoldable pub merge_line : Derivation → ℕ → Derivation × Change
unfolding has_line add_line grow grown_size wanted_size
merge_line drv line =
    if has_line drv line then (drv, change_none) else (add_line drv line, change_added)

-- The result of the loop so far, and of one more line.
abbrev pub merge_change : Change → Change → Change
merge_change change change_error = change_error
merge_change change change_added = change_modified
merge_change change _ = change

-- The loop of `lcfgderivation_merge_lines`, from index `i` on with `left` lines to go.
unfoldable pub merge_lines_loop : ℕ → ℕ → List ℕ → Derivation → Change → Derivation × Change
merge_lines_loop zero i a drv change = (drv, change)
merge_lines_loop (suc left) i a drv change =
    let (drv', add_change) = merge_line drv (get_or a i 0) in
    let next = merge_lines_loop left (i + 1) a drv' (merge_change change add_change) in
    if change_ok change then next else (drv, change)

-- `lcfgderivation_merge_lines`
unfoldable pub merge_lines : Derivation → Derivation → Derivation × Change
merge_lines drv1 drv2 =
    if not (has_lines drv2)
    then (drv1, change_none)
    else merge_lines_loop drv2.lines_count 0 (array drv2.lines) drv1 change_none

-- `lcfgderivation_clone`. The copy of a file or of lines cannot fail.
unfoldable pub clone : Derivation → Derivation
unfolding merge_lines merge_lines_loop merge_line has_lines new set_file
clone drv =
    let named = if is_empty drv.file then new else set_file new drv.file in
    (merge_lines named drv).0

-- `lcfgderivation_match`
unfoldable pub match : Derivation → Bytes → Bool
unfolding strcmp
match drv file = is_zero (strcmp (or_default drv.file []) file)
