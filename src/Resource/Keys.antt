-- ===== src/Resource/Keys.antt =====
-- Resource keys and specifications: lcfgresource_build_key, _parse_key and _parse_spec of
-- resources/resource.c.
use lcfg_core.Common.{
  ℕ, ◌+◌, Bool, ◌||◌, Option, none, some, [], ◌∷◌, ◌++◌, Bytes, CString, is_empty, or_default,
  skip_spaces, length, ◌==◌, if◌then◌else◌,
}
use lcfg_core.Context.{split_assignment}
use lcfg_core.Resource.{valid_name}

-- The characters LCFG_RESOURCE_SYMBOL_*.
abbrev pub symbol_derivation : ℕ
symbol_derivation = b'#'

abbrev pub symbol_type : ℕ
symbol_type = b'%'

abbrev pub symbol_priority : ℕ
symbol_priority = b'^'

abbrev pub symbol_value : ℕ
symbol_value = 0

-- A part of a key and the dot behind it, if the part is not empty.
abbrev pub dotted : CString → Bytes
dotted none = []
dotted (some []) = []
dotted (some (c ∷ s)) = (c ∷ s) ++ (b'.' ∷ [])

-- `lcfgresource_compute_key_length`; `none` stands for -1.
unfoldable pub compute_key_length : CString → CString → CString → ℕ → Option ℕ
compute_key_length resource component namespace type_symbol =
    let symbol_len : ℕ = if type_symbol == 0 then 0 else 1 in
    let namespace_len : ℕ =
      if is_empty namespace then 0 else length (or_default namespace []) + 1 in
    let component_len : ℕ =
      if is_empty component then 0 else length (or_default component []) + 1 in
    if is_empty resource
    then none
    else some (symbol_len + namespace_len + component_len + length (or_default resource []))

-- `lcfgresource_insert_key`: the text that is written; its length is the result.
unfoldable pub insert_key : CString → CString → CString → ℕ → Option Bytes
insert_key resource component namespace type_symbol =
    let symbol : Bytes = if type_symbol == 0 then [] else type_symbol ∷ [] in
    if is_empty resource
    then none
    else some (symbol ++ (dotted namespace ++ (dotted component ++ or_default resource [])))

-- `write_len == need_len`
unfoldable pub checked : Option ℕ → Option Bytes → Option Bytes
checked none text = none
checked (some need_len) none = none
checked (some need_len) (some text) = if length text == need_len then some text else none

-- `lcfgresource_build_key`: the key; `none` stands for -1.
unfoldable pub build_key : CString → CString → CString → ℕ → Option Bytes
unfolding compute_key_length insert_key checked
build_key resource component namespace type_symbol =
    if is_empty resource
    then none
    else checked (compute_key_length resource component namespace type_symbol)
        (insert_key resource component namespace type_symbol)

-- The parts of a key.
pub record Key : Type 0 where
  pub hostname : CString
  pub compname : CString
  pub resname : CString
  pub type : ℕ

abbrev pub is_symbol : ℕ → Bool
is_symbol c = c == symbol_derivation || c == symbol_type || c == symbol_priority

-- A step back from the last '.': the byte stands in front of the split, or is itself the dot.
abbrev pub split_step : ℕ → Bytes → Option (Bytes × Bytes) → Option (Bytes × Bytes)
split_step c s (some (before, after)) = some (c ∷ before, after)
split_step c s none = if c == b'.' then some ([], s) else none

-- `strrchr( s, '.' )`: the text in front of the last '.', and the text behind it.
unfoldable pub split_last : Bytes → Option (Bytes × Bytes)
split_last [] = none
split_last (c ∷ s) = split_step c s (split_last s)

-- The hostname and the component, in the text in front of the resource name.
unfoldable pub parse_front : Bytes → ℕ → Bytes → Option (Bytes × Bytes) → Option Key
parse_front resname type start none =
    some (record { hostname = none; compname = some start; resname = some resname; type = type })
parse_front resname type start (some (before, [])) = none
parse_front resname type start (some (before, c ∷ s)) = some (record {
  hostname = some before;
  compname = some (c ∷ s);
  resname = some resname;
  type = type;
})

-- The part of `lcfgresource_parse_key` behind the type symbol.
unfoldable pub parse_parts : ℕ → Bytes → Option (Bytes × Bytes) → Option Key
unfolding parse_front split_last
parse_parts type start none =
    some (record { hostname = none; compname = none; resname = some start; type = type })
parse_parts type start (some (before, [])) = none
parse_parts type start (some (before, c ∷ s)) = parse_front (c ∷ s) type before (split_last before)

-- The type symbol, if there is one.
unfoldable pub parse_symbol : Bytes → Option Key
unfolding parse_parts split_last
parse_symbol [] = none
parse_symbol (c ∷ s) =
    if is_symbol c
    then parse_parts c s (split_last s)
    else parse_parts symbol_value (c ∷ s) (split_last (c ∷ s))

-- `lcfgresource_parse_key`: `none` stands for false.
unfoldable pub parse_key : CString → Option Key
unfolding parse_symbol skip_spaces
parse_key key = if is_empty key then none else parse_symbol (skip_spaces (or_default key []))

-- The key of a specification and its value, where the resource name is valid.
unfoldable pub named : Bytes → Option Key → Option (Key × Bytes)
unfolding valid_name
named value none = none
named value (some key) = if valid_name key.resname then some (key, value) else none

-- The texts in front of the '=' and behind it, if there is one.
unfoldable pub parse_assignment : Option (Bytes × Bytes) → Option (Key × Bytes)
unfolding named parse_key
parse_assignment none = none
parse_assignment (some (key, value)) = named value (parse_key (some key))

-- `lcfgresource_parse_spec`, of a text that is not NULL; `none` stands for LCFG_STATUS_ERROR.
unfoldable pub parse_spec : Bytes → Option (Key × Bytes)
unfolding parse_assignment split_assignment skip_spaces
parse_spec spec =
    let start = skip_spaces spec in
    if is_empty (some start) then none else parse_assignment (split_assignment start)
