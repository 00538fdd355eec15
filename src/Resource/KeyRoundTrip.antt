-- ===== src/Resource/KeyRoundTrip.antt =====
-- Resource keys that are built and read back: resources/resource.c.
use lcfg_core.Common.{
  ℕ, ◌+◌, ◌≡◌, ◌≤◌, refl, ap, ◌∙◌, Bool, true, false, ◌||◌, none, some, [], ◌∷◌, ◌++◌, Bytes,
  CString, is_empty, or_default, is_space, skip_spaces, length, length-append, deref, ◌==◌,
  if◌then◌else◌, arith, Bool-cases, inl, inr,
}
use lcfg_core.Resource.{valid_name}
use lcfg_core.Resource.Keys.{
  symbol_value, dotted, compute_key_length, insert_key, checked, build_key, is_symbol, split_last,
  parse_parts, parse_symbol, parse_key, named, parse_assignment, parse_spec,
}
use lcfg_core.Resource.KeyParts.{
  LacksByte, lacks_first, lacks_rest, split_assignment-append, plain_key, IsPath, key_of,
  parse_plain,
}

-- A symbol that a key may start with, or none.
abbrev pub IsType : ℕ → Type 0
IsType t = (t == symbol_value || is_symbol t) ≡ true

abbrev pub with_symbol : ℕ → Bytes → Bytes
with_symbol t s = (if t == symbol_value then [] else t ∷ []) ++ s

not_space : (t : ℕ) → is_symbol t ≡ true → is_space t ≡ false
unfolding is_space
not_space t h = ground (arith, h)

or_left : (a b : Bool) → (a || b) ≡ false → a ≡ false
or_left true b h = h
or_left false b h = refl

or_right : (a b : Bool) → (a || b) ≡ false → b ≡ false
or_right true b h = cc
or_right false b h = h

parse_symbol-none :
    (s : Bytes)
    → is_empty (some s) ≡ false
    → (is_space (deref s) || is_symbol (deref s)) ≡ false
    → (skip_spaces s ≡ s) × (parse_symbol s ≡ parse_parts symbol_value s (split_last s))
unfolding skip_spaces parse_symbol
parse_symbol-none [] h k = cc
parse_symbol-none (c ∷ s) h k = (
  rw (or_left (is_space c) (is_symbol c) k) refl,
  rw (or_right (is_space c) (is_symbol c) k) refl,
)

parse_symbol-some :
    (t : ℕ) (s : Bytes)
    → is_symbol t ≡ true
    → (skip_spaces (t ∷ s) ≡ t ∷ s) × (parse_symbol (t ∷ s) ≡ parse_parts t s (split_last s))
unfolding skip_spaces parse_symbol
parse_symbol-some t s h = (rw (not_space t h) refl, rw h refl)

parse_key-with_symbol :
    (t : ℕ) (s : Bytes)
    → IsType t
    → is_empty (some s) ≡ false
    → (is_space (deref s) || is_symbol (deref s)) ≡ false
    → (parse_key (some (with_symbol t s)) ≡ parse_parts t s (split_last s))
      × (skip_spaces (with_symbol t s) ≡ with_symbol t s)
      × (is_empty (some (with_symbol t s)) ≡ false)
unfolding parse_key
parse_key-with_symbol t [] h k p = cc
parse_key-with_symbol t (c ∷ s) h k p = elim (Bool-cases (t == symbol_value)) [
  | inl e ↦
      let q : t ≡ 0 = ground (arith, e) in
      let (skip, parse) = parse_symbol-none (c ∷ s) k p in rw q (rw skip parse, skip, refl)
  | inr e ↦
      let (skip, parse) = parse_symbol-some t (c ∷ s) (rw e at h) in
      rw e (rw skip parse, skip, refl)
]

filled_key :
    (namespace component : CString) (r : Bytes)
    → is_empty (some r) ≡ false
    → is_empty (some (plain_key namespace component r)) ≡ false
filled_key none none r h = h
filled_key none (some []) r h = h
filled_key (some []) none r h = h
filled_key (some []) (some []) r h = h
filled_key none (some (c ∷ s)) r h = refl
filled_key (some []) (some (c ∷ s)) r h = refl
filled_key (some (d ∷ n)) component r h = refl

no_name : is_empty (some []) ≡ false → ⊥
no_name h = cc

skip_spaces-le : (s : Bytes) → length (skip_spaces s) ≤ length s
unfolding skip_spaces
skip_spaces-le [] = omega arith
skip_spaces-le (c ∷ s) = elim (Bool-cases (is_space c)) [
  | inl e ↦ rw e (omega (arith, skip_spaces-le s))
  | inr e ↦ rw e (omega arith)
]

too_short : (c : ℕ) (s : Bytes) → skip_spaces s ≡ c ∷ s → ⊥
too_short c s h = let e = ap length h in omega (arith, e, skip_spaces-le s)

skip-append :
    (a b : Bytes) → is_empty (some a) ≡ false → skip_spaces a ≡ a → skip_spaces (a ++ b) ≡ a ++ b
unfolding skip_spaces
skip-append [] b h k = cc
skip-append (c ∷ a) b h k = elim (Bool-cases (is_space c)) [
  | inl e ↦ absurd (too_short c a (rw e at k))
  | inr e ↦ rw e refl
]

filled-append : (a b : Bytes) → is_empty (some a) ≡ false → is_empty (some (a ++ b)) ≡ false
filled-append [] b h = cc
filled-append (c ∷ a) b h = refl

checked-equal : (n : ℕ) (text : Bytes) → length text ≡ n → checked (some n) (some text) ≡ some text
unfolding checked
checked-equal n text h = let q : (length text == n) ≡ true = ground (arith, h) in rw q refl

length-dotted :
    (x : CString) → length (dotted x) ≡ (if is_empty x then 0 else length (or_default x []) + 1)
length-dotted none = refl
length-dotted (some []) = refl
length-dotted (some (c ∷ s)) = length-append (c ∷ s) (b'.' ∷ [])

length-symbol : (t : ℕ) → length (if t == 0 then [] else t ∷ []) ≡ (if t == 0 then 0 else 1)
length-symbol t = elim (Bool-cases (t == 0)) [ inl e ↦ rw e refl | inr e ↦ rw e refl ]

-- The lengths agree, so the key is built.
key_length :
    (t : ℕ) (namespace component : CString) (x : ℕ) (r : Bytes)
    → build_key (some (x ∷ r)) component namespace t
      ≡ some (with_symbol t (plain_key namespace component (x ∷ r)))
unfolding build_key compute_key_length insert_key
key_length t namespace component x r = checked-equal _ _ (
    length-append (if t == 0 then [] else t ∷ []) (plain_key namespace component (x ∷ r))
    ∙ rw
        (
          length-append (dotted namespace) (dotted component ++ (x ∷ r)),
          length-append (dotted component) (x ∷ r),
          length-dotted namespace,
          length-dotted component,
          length-symbol t,
        )
        (omega arith))

LacksByte-append : (d : ℕ) (a b : Bytes) → LacksByte d a → LacksByte d b → LacksByte d (a ++ b)
LacksByte-append d [] b h k = k
LacksByte-append d (c ∷ a) b h k =
    rw (lacks_first d c a h) (LacksByte-append d a b (lacks_rest d c a h) k)

LacksByte-dotted : (x : CString) → LacksByte b'=' (or_default x []) → LacksByte b'=' (dotted x)
LacksByte-dotted none h = refl
LacksByte-dotted (some []) h = refl
LacksByte-dotted (some (c ∷ s)) h = LacksByte-append b'=' (c ∷ s) (b'.' ∷ []) h refl

LacksByte-symbol : (t : ℕ) → IsType t → LacksByte b'=' (if t == symbol_value then [] else t ∷ [])
LacksByte-symbol t h = ground (arith, h)

LacksByte-key :
    (t : ℕ) (namespace component : CString) (r : Bytes)
    → IsType t
    → IsPath namespace component r
    → LacksByte b'=' (with_symbol t (plain_key namespace component r))
LacksByte-key t namespace component r h p =
    LacksByte-append b'=' (if t == symbol_value then [] else t ∷ [])
      (plain_key namespace component r) (LacksByte-symbol t h)
      (LacksByte-append b'=' (dotted namespace) (dotted component ++ r)
        (LacksByte-dotted namespace p.namespace_assign)
        (LacksByte-append b'=' (dotted component) r (LacksByte-dotted component p.component_assign)
          p.resource_assign))

parse_key-plain :
    (t : ℕ) (namespace component : CString) (r : Bytes)
    → IsType t
    → IsPath namespace component r
    → parse_key (some (with_symbol t (plain_key namespace component r)))
      ≡ some (key_of namespace component r t)
parse_key-plain t namespace component [] h p = absurd (no_name p.filled)
parse_key-plain t namespace component (x ∷ r) h p =
    (parse_key-with_symbol t (plain_key namespace component (x ∷ r)) h
      (filled_key namespace component (x ∷ r) p.filled) p.starts).0
    ∙ parse_plain t x r p.resource_dots namespace component p.component_dots p.nested

-- A specification, the key that is built, '=' and a value, is read back: the same host, component,
-- resource, type symbol and value, and parts that are empty are NULL. For a valid resource name, a
-- component with no dot, a component where there is a host, no '=' in any of them, no space or
-- symbol at the start of the first, and one of the symbols that a key may have, or none.
pub parse_spec-build_key :
    (t : ℕ) (namespace component : CString) (resource value : Bytes)
    → IsType t
    → valid_name (some resource) ≡ true
    → IsPath namespace component resource
    → (key : Bytes) × (build_key (some resource) component namespace t ≡ some key)
      × (parse_spec (key ++ b'=' ∷ value) ≡ some (key_of namespace component resource t, value))
unfolding parse_spec parse_assignment named
parse_spec-build_key t namespace component [] value h v p = absurd (no_name p.filled)
parse_spec-build_key t namespace component (x ∷ r) value h v p =
    let plain = plain_key namespace component (x ∷ r) in
    let key = with_symbol t plain in
    let (parse, skip, filled) =
      parse_key-with_symbol t plain h (filled_key namespace component (x ∷ r) p.filled) p.starts in
    (
      key,
      key_length t namespace component x r,
      rw
          (
            skip-append key (b'=' ∷ value) filled skip,
            filled-append key (b'=' ∷ value) filled,
            split_assignment-append key value (LacksByte-key t namespace component (x ∷ r) h p),
            parse_key-plain t namespace component (x ∷ r) h p,
            v,
          )
          refl,
    )
