-- ===== src/Tags.antt =====
-- Resource tags and lists of them: resources/tags/tag.c and resources/tags/list.c. A tag is a name
-- with its length and its hash; lists share tags by reference counts.
pub mod Sets
pub mod Members
pub mod Gather
pub mod Union
pub mod Tests
use lcfg_core.Common.{
  ℕ, zero, suc, ◌+◌, ◌-◌, ◌*◌, ◌%◌, ◌^◌, Bool, true, false, not, ◌&&◌, ◌||◌, Option, none, some,
  List, [], ◌∷◌, ◌++◌, Bytes, CString, is_empty, or_default, is_word, all_bytes, skip_spaces,
  length, take, set, strcmp, ℤ, is_zero, ltb, ◌==◌, if◌then◌else◌, Heap, update, Change,
  change_error, change_none, change_added, change_replaced, change_ok,
}
use lcfg_core.Derivation.{u32}
use lcfg_core.Utils.Hash.{djbhash}

-- `LCFGTag`
pub record Tag : Type 0 where
  pub name : CString
  pub name_len : ℕ
  pub hash : ℕ
  pub refcount : ℕ

-- `LCFGTagList`: the addresses of the tags, in order. The links of the nodes are their order.
pub record TagList : Type 0 where
  pub tags : List ℕ
  pub size : ℕ
  pub refcount : ℕ

-- The heap of tags; the addresses from `next` on are free.
pub record TagHeap : Type 0 where
  pub tag : Heap Tag
  pub next : ℕ

-- `lcfgtag_new`
unfoldable pub new : Tag
new = record { name = none; name_len = 0; hash = 1; refcount = 1 }

-- `lcfgtag_acquire`
unfoldable pub acquire : TagHeap → ℕ → TagHeap
acquire h p =
    let t = h.tag p in
    record h { tag = update h.tag p (record t { refcount = (t.refcount + 1) % u32 }) }

-- `lcfgtag_destroy`: the name is gone with the structure.
unfoldable pub destroyed : Tag → Tag
destroyed t = record t { name = none; refcount = 0 }

-- `lcfgtag_relinquish`
unfoldable pub relinquish : TagHeap → ℕ → TagHeap
unfolding destroyed
relinquish h p =
    let t = h.tag p in
    let count = if ltb 0 t.refcount then t.refcount - 1 else t.refcount in
    let t' = if count == 0 then destroyed t else record t { refcount = count } in
    record h { tag = update h.tag p t' }

-- `lcfgtag_is_valid`, of a pointer that is not NULL.
unfoldable pub is_valid : Tag → Bool
is_valid t = not (is_empty t.name)

-- `lcfgresource_valid_tag`
unfoldable pub valid_tag : CString → Bool
valid_tag name = not (is_empty name) && all_bytes is_word (or_default name [])

-- `lcfgtag_set_name`
unfoldable pub set_name : Tag → Bytes → Tag × Bool
unfolding valid_tag djbhash
set_name t new_name =
    if valid_tag (some new_name)
    then (
      record t { name = some new_name; name_len = length new_name; hash = djbhash new_name },
      true,
    )
    else (t, false)

-- `lcfgtag_from_string`: the tag; `none` stands for LCFG_STATUS_ERROR.
unfoldable pub from_string : CString → Option Tag
unfolding set_name new
from_string input =
    let start = skip_spaces (or_default input []) in
    let (t, ok) = set_name new start in
    if is_empty (some start) then none else if ok then some t else none

-- `lcfgtag_compare`
unfoldable pub compare_tags : Tag → Tag → ℤ
unfolding strcmp
compare_tags t other = strcmp (or_default t.name []) (or_default other.name [])

-- `strncmp( s, t, n ) == 0` for a `t` of length `n`.
unfoldable pub same_bytes : Bytes → Bytes → Bool
unfolding strcmp
same_bytes s t = is_zero (strcmp s t)

-- `lcfgtag_match`
unfoldable pub match : Tag → Bytes → Bool
unfolding same_bytes
match t name = length name == t.name_len && same_bytes (take t.name_len (or_default t.name [])) name

-- `lcfgtaglist_new`
unfoldable pub new_list : TagList
new_list = record { tags = []; size = 0; refcount = 1 }

-- `lcfgtaglist_append_tag`: `lcfgtaglist_insert_next` behind the tail.
unfoldable pub append_tag : TagHeap → TagList → ℕ → (TagHeap × TagList) × Change
unfolding is_valid acquire
append_tag h list p =
    let list' = record list { tags = list.tags ++ (p ∷ []); size = (list.size + 1) % u32 } in
    if is_valid (h.tag p) then ((acquire h p, list'), change_added) else ((h, list), change_error)

-- `lcfgtaglist_prepend_tag`: `lcfgtaglist_insert_next` at the head.
unfoldable pub prepend_tag : TagHeap → TagList → ℕ → (TagHeap × TagList) × Change
unfolding is_valid acquire
prepend_tag h list p =
    let list' = record list { tags = p ∷ list.tags; size = (list.size + 1) % u32 } in
    if is_valid (h.tag p) then ((acquire h p, list'), change_added) else ((h, list), change_error)

-- The loop of `lcfgtaglist_find_node`: the address of the first match.
unfoldable pub find_from : TagHeap → List ℕ → Bytes → Option ℕ
unfolding match
find_from h [] want_name = none
find_from h (p ∷ ps) want_name =
    if match (h.tag p) want_name then some p else find_from h ps want_name

-- `lcfgtaglist_find_tag`
unfoldable pub find_tag : TagHeap → TagList → Bytes → Option ℕ
unfolding find_from
find_tag h list name = if list.size == 0 then none else find_from h list.tags name

abbrev pub given {ℓ} : {A : Type ℓ} → Option A → Bool
given none = false
given (some _) = true

-- `lcfgtaglist_contains`
unfoldable pub contains : TagHeap → TagList → Bytes → Bool
unfolding find_tag
contains h list name = given (find_tag h list name)
