-- ===== src/Context/Tests.antt =====
-- Concrete runs on contexts and expressions, and instances of the theorems.
use lcfg_core.Common.{
  ℕ, ◌≡◌, refl, Bool, true, false, Option, none, some, List, [], ◌∷◌, codes, or_default, is_empty,
  if◌then◌else◌, ℤ, pos, negsuc, Heap, update, length, Bool-cases, inl, inr, ◌==◌, CString, Bytes,
}
use lcfg_core.Context
use lcfg_core.Context.{Context, at_least_one, from_string, to_string, valid_name}
use lcfg_core.Context.Contexts.{ContextList, sort_by_priority}
use lcfg_core.Context.Expression.{
  op_or, op_xor, op_and, named, not_named, equals_string, eval_query,
}
use lcfg_core.Context.Parser.{eval_query-value}
use lcfg_core.Context.Grammar.{Tree, of_expression, atom, single, chain, tokens, value}
use lcfg_core.Context.Truth.{Agrees, truth, eval_query-Agrees}
use lcfg_core.Context.RoundTrip.{read_back, from_string-to_string}
use lcfg_core.Context.Priority.{above, sort_by_priority-IsSorted}
use lcfg_core.PackageList.Sorted.{IsReordered, IsSorted}

abbrev office : Context
office = record {
  name = some (codes "office");
  value = some (codes "true");
  priority = pos 3;
  refcount = 1;
}

abbrev site : Context
site = record {
  name = some (codes "site");
  value = some (codes "kb");
  priority = pos 2;
  refcount = 1;
}

abbrev heap : Heap Context
heap = update (update (λ _. Context.new) 0 office) 1 site

abbrev list : ContextList
list = record { nodes = 0 ∷ 1 ∷ []; size = 2 }

-- office | site = "kb" & !laptop
abbrev expression : Tree of_expression
expression =
    chain
      (chain (single (atom (named (codes "office")))) op_or
        (atom (equals_string (codes "site") (codes "kb"))))
      op_and (atom (not_named (codes "laptop")))

-- Of two true operands the priority of XOR is the greater one, negative.
test_xor :
    eval_query heap (some list) (
      tokens
        (chain
          (single (atom (named (codes "office"))))
          op_xor
          (atom (equals_string (codes "site") (codes "kb"))))
        [])
    ≡ some (negsuc 2)
unfolding eval_query Context.new tokens lcfg_core.Common.strcmp lcfg_core.Common.strcasecmp
    lcfg_core.Common.◌-ℤ◌
test_xor = refl

eval_query-value_example :
    eval_query heap (some list) (tokens expression []) ≡ some (value heap (some list) expression)
eval_query-value_example = eval_query-value heap (some list) expression

update-ranked :
    (h : Heap Context) (p : ℕ) (ctx : Context)
    → at_least_one ctx.priority ≡ true
    → ((q : ℕ) → at_least_one (h q).priority ≡ true)
    → (q : ℕ) → at_least_one (update h p ctx q).priority ≡ true
update-ranked h p ctx new old q = elim (Bool-cases (q == p)) [
  | inl e ↦ rw e new
  | inr e ↦ rw e (old q)
]

heap-ranked : (q : ℕ) → at_least_one (heap q).priority ≡ true
unfolding Context.new
heap-ranked = update-ranked _ 1 site refl (update-ranked _ 0 office refl (λ _. refl))

eval_query-Agrees_example :
    (z : ℤ) × (eval_query heap (some list) (tokens expression []) ≡ some z)
    × Agrees z (truth heap (some list) expression)
eval_query-Agrees_example = eval_query-Agrees heap (some list) expression heap-ranked

from_string-to_string_example :
    from_string (to_string office true) (pos 4)
    ≡ some (
        read_back
          (or_default office.name [])
          (if is_empty office.value then none else some (or_default office.value []))
          (pos 4))
unfolding valid_name lcfg_core.Common.is_space Context.strip_end lcfg_core.Common.is_alpha
    lcfg_core.Common.is_word
from_string-to_string_example =
    from_string-to_string office true (pos 4) refl (record { start = refl; end = refl }) refl

sort_by_priority-IsSorted_example :
    IsSorted (above heap) (sort_by_priority heap list).nodes
    × IsReordered (sort_by_priority heap list).nodes list.nodes
sort_by_priority-IsSorted_example = sort_by_priority-IsSorted heap list refl
