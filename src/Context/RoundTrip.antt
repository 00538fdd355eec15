-- ===== src/Context/RoundTrip.antt =====
-- Contexts printed by lcfgcontext_to_string and read by lcfgcontext_from_string:
-- common/context/context.c.
use lcfg_core.Common.{
  ℕ, ◌≡◌, refl, ap, Bool, true, false, ◌&&◌, none, some, [], ◌∷◌, ◌++◌, Bytes, CString, is_empty,
  or_default, is_alpha, is_alnum, is_upper, is_digit, is_word, is_space, all_bytes, skip_spaces,
  ◌==◌, if◌then◌else◌, ℤ, arith, Bool-cases, inl, inr, deref,
}
use lcfg_core.Context
use lcfg_core.Context.{
  Context, is_valid, valid_name, at_least_one, strip_end, in_front, split_assignment, finish,
  set_name, from_fields, from_parts, from_string, to_string,
}

-- A byte of a name is neither a space nor '='.
word-plain : (c : ℕ) → is_word c ≡ true → (is_space c ≡ false) × ((c == b'=') ≡ false)
unfolding is_word is_alnum is_alpha is_upper is_digit is_space
word-plain c h = ground (arith, h)

alpha-word : (c : ℕ) → is_alpha c ≡ true → is_word c ≡ true
unfolding is_word is_alnum
alpha-word c h = ground (arith, h)

split-name :
    (name rest : Bytes)
    → all_bytes is_word name ≡ true
    → split_assignment (name ++ b'=' ∷ rest) ≡ some (name, rest)
unfolding split_assignment
split-name [] rest h = refl
split-name (c ∷ s) rest h = elim (Bool-cases (is_word c)) [
  | inl w ↦ rw ((word-plain c w).1, split-name s rest (ground (arith, w, h))) refl
  | inr w ↦ ground (arith, w, h)
]

strip-name : (name : Bytes) → all_bytes is_word name ≡ true → strip_end name ≡ name
unfolding strip_end
strip-name [] h = refl
strip-name (c ∷ s) h = elim (Bool-cases (is_word c)) [
  | inl w ↦ rw ((word-plain c w).0, strip-name s (ground (arith, w, h))) refl
  | inr w ↦ ground (arith, w, h)
]

strip_end-newline : (s : Bytes) → strip_end (s ++ (10 ∷ [])) ≡ strip_end s
unfolding strip_end is_space
strip_end-newline [] = refl
strip_end-newline (c ∷ s) = rw (strip_end-newline s) refl

-- No space stands at either end.
pub record IsTrimmed (v : Bytes) : Type 0 where
  pub start : is_space (deref v) ≡ false
  pub end : strip_end v ≡ v

abbrev pub ending : Bool → Bytes
ending newline = if newline then 10 ∷ [] else []

append_nil : (v : Bytes) → v ++ [] ≡ v
append_nil [] = refl
append_nil (c ∷ v) = rw (append_nil v) refl

strip-ending : (v : Bytes) (newline : Bool) → strip_end (v ++ ending newline) ≡ strip_end v
strip-ending v true = strip_end-newline v
strip-ending v false = ap strip_end (append_nil v)

skip-ending :
    (v : Bytes) (newline : Bool)
    → is_space (deref v) ≡ false
    → strip_end (skip_spaces (v ++ ending newline)) ≡ strip_end v
unfolding skip_spaces is_space
skip-ending [] true h = refl
skip-ending [] false h = refl
skip-ending (c ∷ s) newline h = rw h (strip-ending (c ∷ s) newline)

-- The context that is read back.
abbrev pub read_back : Bytes → CString → ℤ → Context
read_back name value priority = record {
  name = some name;
  value = value;
  priority = priority;
  refcount = 1;
}

finish-value :
    (name v : Bytes) (priority : ℤ)
    → at_least_one priority ≡ true
    → finish (record Context.new { name = some name }) v priority
      ≡ some (read_back name (if is_empty (some v) then none else some v) priority)
unfolding finish Context.new
finish-value name [] priority h = rw h refl
finish-value name (c ∷ v) priority h = rw h refl

from_fields-valid :
    (name v : Bytes) (priority : ℤ)
    → valid_name (some name) ≡ true
    → at_least_one priority ≡ true
    → from_fields name v priority
      ≡ some (read_back name (if is_empty (some v) then none else some v) priority)
unfolding from_fields set_name valid_name
from_fields-valid [] v priority h k = ground (arith, h)
from_fields-valid (c ∷ s) v priority h k = rw h (finish-value (c ∷ s) v priority k)

and_left : (a b : Bool) → a && b ≡ true → a ≡ true
and_left true b h = refl
and_left false b h = h

and_right : (a b : Bool) → a && b ≡ true → b ≡ true
and_right true b h = h
and_right false true h = refl
and_right false false h = h

valid_name-all_bytes :
    (name : Bytes) → valid_name (some name) ≡ true → all_bytes is_word name ≡ true
unfolding valid_name
valid_name-all_bytes [] h = refl
valid_name-all_bytes (c ∷ s) h =
    rw (alpha-word c (and_left (is_alpha c) (all_bytes is_word s) h))
      (and_right (is_alpha c) (all_bytes is_word s) h)

valid_name-start :
    (name rest : Bytes) → valid_name (some name) ≡ true → skip_spaces (name ++ rest) ≡ name ++ rest
unfolding skip_spaces valid_name
valid_name-start [] rest h = ground (arith, h)
valid_name-start (c ∷ s) rest h =
    rw ((word-plain c (alpha-word c (and_left (is_alpha c) (all_bytes is_word s) h))).0) refl

valid_name-filled : (name : Bytes) → valid_name (some name) ≡ true → is_empty (some name) ≡ false
unfolding valid_name
valid_name-filled [] h = ground (arith, h)
valid_name-filled (c ∷ s) h = refl

valid_name-some :
    (n : CString)
    → valid_name n ≡ true
    → (name : Bytes) × (n ≡ some name) × (valid_name (some name) ≡ true)
unfolding valid_name
valid_name-some none h = ground (arith, h)
valid_name-some (some name) h = (name, refl, h)

or_default_same : (s : Bytes) → or_default (some s) [] ≡ s
or_default_same [] = refl
or_default_same (c ∷ s) = refl

is_empty-or_default : (x : CString) → is_empty (some (or_default x [])) ≡ is_empty x
is_empty-or_default none = refl
is_empty-or_default (some []) = refl
is_empty-or_default (some (c ∷ s)) = refl

-- The text of a context is read back.
from_string-text :
    (name v : Bytes) (newline : Bool) (priority : ℤ)
    → valid_name (some name) ≡ true
    → IsTrimmed v
    → at_least_one priority ≡ true
    → from_string (some (name ++ (b'=' ∷ (v ++ ending newline)))) priority
      ≡ some (read_back name (if is_empty (some v) then none else some v) priority)
unfolding from_string from_parts
from_string-text name v newline priority h trimmed k =
    let plain = valid_name-all_bytes name h in
    rw
      (
        or_default_same (name ++ (b'=' ∷ (v ++ ending newline))),
        valid_name-start name (b'=' ∷ (v ++ ending newline)) h,
        split-name name (v ++ ending newline) plain,
        strip-name name plain,
        skip-ending v newline trimmed.start,
        trimmed.end,
      )
      (from_fields-valid name v priority h k)

-- A context that is printed, with or without a newline, is read back with the same name and value
-- and the priority that is given: for a name of letters, digits and underscores that starts with a
-- letter, a value that is missing or has no space at either end, and a priority of 1 at least.
pub from_string-to_string :
    (ctx : Context) (newline : Bool) (priority : ℤ)
    → valid_name ctx.name ≡ true
    → IsTrimmed (or_default ctx.value [])
    → at_least_one priority ≡ true
    → from_string (to_string ctx newline) priority
      ≡ some (
          read_back
            (or_default ctx.name [])
            (if is_empty ctx.value then none else some (or_default ctx.value []))
            priority)
unfolding to_string is_valid
from_string-to_string ctx newline priority h trimmed k =
    let (name, e, h') = valid_name-some ctx.name h in
    rw (e, ← is_empty-or_default ctx.value, or_default_same name, valid_name-filled name h')
      (from_string-text name (or_default ctx.value []) newline priority h' trimmed k)
