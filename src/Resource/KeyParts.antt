-- ===== src/Resource/KeyParts.antt =====
-- The parts of a resource key, taken apart at the dots: resources/resource.c.
use mathlib.Core.List.{append_assoc}
use lcfg_core.Common.{
  ℕ, ◌≡◌, refl, true, false, not, ◌||◌, none, some, [], ◌∷◌, ◌++◌, Bytes, CString, is_empty,
  or_default, is_space, all_bytes, deref, ◌==◌, if◌then◌else◌, arith, Bool-cases, inl, inr,
}
use lcfg_core.Utils.Scan.{and_right}
use lcfg_core.Context.{split_assignment}
use lcfg_core.Resource.Keys.{Key, dotted, is_symbol, split_last, parse_front, parse_parts}

-- A byte does not stand in a text.
abbrev pub LacksByte : ℕ → Bytes → Type 0
LacksByte d s = all_bytes (λ c. not (c == d)) s ≡ true

pub lacks_first : (d c : ℕ) (s : Bytes) → LacksByte d (c ∷ s) → (c == d) ≡ false
lacks_first d c s h = elim (Bool-cases (c == d)) [ inl e ↦ ground (arith, e, h) | inr e ↦ e ]

pub lacks_rest : (d c : ℕ) (s : Bytes) → LacksByte d (c ∷ s) → LacksByte d s
lacks_rest d c s h = and_right (not (c == d)) (all_bytes (λ c. not (c == d)) s) h

split_last-none : (s : Bytes) → LacksByte b'.' s → split_last s ≡ none
unfolding split_last
split_last-none [] h = refl
split_last-none (c ∷ s) h =
    rw (split_last-none s (lacks_rest b'.' c s h), lacks_first b'.' c s h) refl

split_last-append : (a s : Bytes) → LacksByte b'.' s → split_last (a ++ b'.' ∷ s) ≡ some (a, s)
unfolding split_last
split_last-append [] s h = rw (split_last-none s h) refl
split_last-append (c ∷ a) s h = rw (split_last-append a s h) refl

pub split_assignment-append :
    (a s : Bytes) → LacksByte b'=' a → split_assignment (a ++ b'=' ∷ s) ≡ some (a, s)
unfolding split_assignment
split_assignment-append [] s h = refl
split_assignment-append (c ∷ a) s h =
    rw (lacks_first b'=' c a h, split_assignment-append a s (lacks_rest b'=' c a h)) refl

-- A part that is given: not NULL and not empty.
abbrev pub if_given : CString → CString
if_given x = if is_empty x then none else x

-- The text behind the type symbol.
abbrev pub plain_key : CString → CString → Bytes → Bytes
plain_key namespace component resource = dotted namespace ++ (dotted component ++ resource)

-- The parts of a key that can be read back: no dot in the component or the resource, no '=', no
-- space or symbol at the start, and a component where there is a namespace.
pub record IsPath (namespace component : CString) (resource : Bytes) : Type 0 where
  pub filled : is_empty (some resource) ≡ false
  pub resource_dots : LacksByte b'.' resource
  pub component_dots : LacksByte b'.' (or_default component [])
  pub nested : (is_empty namespace || not (is_empty component)) ≡ true
  pub starts :
      (is_space (deref (plain_key namespace component resource))
        || is_symbol (deref (plain_key namespace component resource)))
      ≡ false
  pub resource_assign : LacksByte b'=' resource
  pub component_assign : LacksByte b'=' (or_default component [])
  pub namespace_assign : LacksByte b'=' (or_default namespace [])

-- The key that is read back.
abbrev pub key_of : CString → CString → Bytes → ℕ → Key
key_of namespace component resource type = record {
  hostname = if_given namespace;
  compname = if_given component;
  resname = some resource;
  type = type;
}

module _ (type : ℕ) (x : ℕ) (r : Bytes) (dots : LacksByte b'.' (x ∷ r)) where
  parse_one : parse_parts type (x ∷ r) (split_last (x ∷ r)) ≡ some (key_of none none (x ∷ r) type)
  unfolding parse_parts
  parse_one = rw (split_last-none (x ∷ r) dots) refl

  parse_two :
      (c : ℕ) (s : Bytes)
      → LacksByte b'.' (c ∷ s)
      → parse_parts type (c ∷ s ++ b'.' ∷ (x ∷ r)) (split_last (c ∷ s ++ b'.' ∷ (x ∷ r)))
        ≡ some (key_of none (some (c ∷ s)) (x ∷ r) type)
  unfolding parse_parts parse_front
  parse_two c s h = rw (split_last-append (c ∷ s) (x ∷ r) dots, split_last-none (c ∷ s) h) refl

  parse_three :
      (d : ℕ) (n : Bytes) (c : ℕ) (s : Bytes)
      → LacksByte b'.' (c ∷ s)
      → parse_parts type
          ((d ∷ n ++ b'.' ∷ (c ∷ s)) ++ b'.' ∷ (x ∷ r))
          (split_last ((d ∷ n ++ b'.' ∷ (c ∷ s)) ++ b'.' ∷ (x ∷ r)))
        ≡ some (key_of (some (d ∷ n)) (some (c ∷ s)) (x ∷ r) type)
  unfolding parse_parts parse_front
  parse_three d n c s h =
      rw
        (
          split_last-append (d ∷ n ++ b'.' ∷ (c ∷ s)) (x ∷ r) dots,
          split_last-append (d ∷ n) (c ∷ s) h,
        )
        refl

  append_dot : (a b : Bytes) → (a ++ b'.' ∷ []) ++ b ≡ a ++ b'.' ∷ b
  append_dot a b = append_assoc a (b'.' ∷ []) b

  regroup :
      (n s : Bytes)
      → (n ++ b'.' ∷ []) ++ ((s ++ b'.' ∷ []) ++ (x ∷ r)) ≡ (n ++ b'.' ∷ s) ++ b'.' ∷ (x ∷ r)
  regroup n s = simp append_assoc

  pub parse_plain :
      (namespace component : CString)
      → LacksByte b'.' (or_default component [])
      → (is_empty namespace || not (is_empty component)) ≡ true
      → parse_parts type
          (plain_key namespace component (x ∷ r))
          (split_last (plain_key namespace component (x ∷ r)))
        ≡ some (key_of namespace component (x ∷ r) type)
  parse_plain none none h k = parse_one
  parse_plain none (some []) h k = parse_one
  parse_plain (some []) none h k = parse_one
  parse_plain (some []) (some []) h k = parse_one
  parse_plain none (some (c ∷ s)) h k = rw (append_dot s (x ∷ r)) (parse_two c s h)
  parse_plain (some []) (some (c ∷ s)) h k = rw (append_dot s (x ∷ r)) (parse_two c s h)
  parse_plain (some (d ∷ n)) none h k = cc
  parse_plain (some (d ∷ n)) (some []) h k = cc
  parse_plain (some (d ∷ n)) (some (c ∷ s)) h k = rw (regroup n (c ∷ s)) (parse_three d n c s h)
