-- ===== src/Context/Contexts.antt =====
-- Lists of contexts, their updates and the queries of them: common/context/list.c.
use lcfg_core.Common.{
  ℕ, zero, suc, ◌+◌, ◌-◌, ◌%◌, ◌*◌, Bool, true, false, not, ◌&&◌, ◌||◌, Option, none, some, List,
  [], ◌∷◌, ◌++◌, Bytes, CString, is_empty, or_default, strcmp, is_zero, length, set, ℤ, pos, negsuc,
  ◌-ℤ◌, ltb, ◌==◌, if◌then◌else◌, Heap, update, Change, change_error, change_none, change_modified,
  change_added,
}
use lcfg_core.Derivation.{u32}
use lcfg_core.Context.{Context, is_valid, match, equals, is_true, is_false}
use lcfg_core.PackageList.Merge.{is_positive}
use lcfg_core.PackageList.Sort.{passes}

-- `LCFGContextList`: the addresses in the nodes, in order. The head and the tail are its ends.
pub record ContextList : Type 0 where
  pub nodes : List ℕ
  pub size : ℕ

-- `lcfgctxlist_new`
unfoldable pub new : ContextList
new = record { nodes = []; size = 0 }

-- `lcfgcontext_acquire`
unfoldable pub acquire : Heap Context → ℕ → Heap Context
acquire h p = let ctx = h p in update h p (record ctx { refcount = (ctx.refcount + 1) % u32 })

-- `lcfgcontext_destroy`: the strings are gone with the structure.
unfoldable pub destroyed : Context → Context
destroyed ctx = record ctx { name = none; value = none; refcount = 0 }

-- `lcfgcontext_relinquish`
unfoldable pub relinquish : Heap Context → ℕ → Heap Context
unfolding destroyed
relinquish h p =
    let ctx = h p in
    let count = if ltb 0 ctx.refcount then ctx.refcount - 1 else ctx.refcount in
    update h p (if count == 0 then destroyed ctx else record ctx { refcount = count })

-- `lcfgctxlist_append`: `lcfgctxlist_insert_next` at the tail.
unfoldable pub append : Heap Context → ContextList → ℕ → (Heap Context × ContextList) × Change
unfolding is_valid acquire
append h list p =
    let list' : ContextList = record {
      nodes = list.nodes ++ (p ∷ []);
      size = (list.size + 1) % u32;
    } in
    if is_valid (h p) then ((acquire h p, list'), change_added) else ((h, list), change_error)

-- The loop of `lcfgctxlist_find_node`: the position of the first match, and the context.
unfoldable pub find_from : Heap Context → List ℕ → Bytes → ℕ → Option (ℕ × ℕ)
unfolding is_valid match
find_from h [] want_name i = none
find_from h (p ∷ ps) want_name i =
    let rest = find_from h ps want_name (i + 1) in
    if is_valid (h p) && match (h p) want_name then some (i, p) else rest

-- `lcfgctxlist_find_node`
unfoldable pub find_node : Heap Context → ContextList → Bytes → Option (ℕ × ℕ)
unfolding find_from
find_node h list want_name = if list.size == 0 then none else find_from h list.nodes want_name 0

-- `lcfgslist_data(node)`, unless there is no node.
abbrev pub context_at : Heap Context → Option (ℕ × ℕ) → Option Context
context_at h none = none
context_at h (some (i, p)) = some (h p)

-- `lcfgctxlist_find_context`, of a list that may be NULL.
unfoldable pub find_context : Heap Context → Option ContextList → Bytes → Option Context
unfolding find_node
find_context h none name = none
find_context h (some list) name = context_at h (find_node h list name)

-- `lcfgctxlist_contains`
unfoldable pub contains : Heap Context → ContextList → Bytes → Bool
unfolding find_node
contains h list name = elim (find_node h list name) [ none ↦ false | some _ ↦ true ]

-- What `lcfgctxlist_update` does at the node at position `i`, which holds `cur`.
unfoldable pub update_node :
    Heap Context → ContextList → ℕ → ℕ → ℕ → (Heap Context × ContextList) × Change
unfolding equals acquire relinquish
update_node h list i cur p = if equals (h cur) (h p) then ((h, list), change_none) else (
  (relinquish (acquire h p) cur, record list { nodes = set list.nodes i p }),
  change_modified,
)

-- `lcfgctxlist_update`
unfoldable pub update_context :
    Heap Context → ContextList → ℕ → (Heap Context × ContextList) × Change
unfolding is_valid find_node append update_node
update_context h list p =
    if not (is_valid (h p))
    then ((h, list), change_error)
    else elim (find_node h list (or_default (h p).name [])) [
      | none ↦ append h list p
      | some (i, cur) ↦ update_node h list i cur p
    ]

-- The loop of `lcfgctxlist_max_priority`.
unfoldable pub max_from : Heap Context → List ℕ → ℤ → ℤ
max_from h [] max_priority = max_priority
max_from h (p ∷ ps) max_priority =
    let priority = (h p).priority in
    max_from h ps (if is_positive (priority -ℤ max_priority) then priority else max_priority)

-- `lcfgctxlist_max_priority`
unfoldable pub max_priority : Heap Context → ContextList → ℤ
unfolding max_from
max_priority h list = max_from h list.nodes (pos 0)

-- `lcfgctxlist_sort_by_priority`. The passes end before this fuel does.
unfoldable pub sort_by_priority : Heap Context → ContextList → ContextList
unfolding passes
sort_by_priority h list = if ltb list.size 2 then list else record list {
  nodes =
      passes (λ p q. is_positive ((h p).priority -ℤ (h q).priority))
        (length list.nodes * length list.nodes) list.nodes;
}

-- `LCFGTest`
pub data Test : Type 0 where
  test_istrue test_isfalse test_iseq test_isne : Test

-- `-1 * i`
abbrev pub minus : ℤ → ℤ
minus (pos zero) = pos 0
minus (pos (suc n)) = negsuc n
minus (negsuc n) = pos (suc n)

-- `same_value` in `lcfgctxlist_simple_query`.
unfoldable pub has_value : CString → CString → Bool
has_value ctxq_val ctx_value =
    if is_empty ctxq_val || is_empty ctx_value
    then is_empty ctxq_val && is_empty ctx_value
    else is_zero (strcmp (or_default ctxq_val []) (or_default ctx_value []))

-- The priority and the value of a context, or those of an unknown one.
abbrev pub priority_of : Option Context → ℤ
priority_of none = pos 1
priority_of (some ctx) = ctx.priority

abbrev pub value_of : Option Context → CString
value_of none = none
value_of (some ctx) = ctx.value

-- `query_is_true`
unfoldable pub holds : Option Context → CString → Test → Bool
unfolding is_true is_false has_value
holds ctx ctxq_val test_istrue = is_true ctx
holds ctx ctxq_val test_isfalse = is_false ctx
holds ctx ctxq_val test_iseq = has_value ctxq_val (value_of ctx)
holds ctx ctxq_val test_isne = not (has_value ctxq_val (value_of ctx))

-- `lcfgctxlist_simple_query`
unfoldable pub simple_query : Heap Context → Option ContextList → Bytes → CString → Test → ℤ
unfolding find_context holds
simple_query h ctxlist ctxq_name ctxq_val cmp =
    let ctx = find_context h ctxlist ctxq_name in
    if holds ctx ctxq_val cmp then priority_of ctx else minus (priority_of ctx)
