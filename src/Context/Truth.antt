-- ===== src/Context/Truth.antt =====
-- The sign of a priority is a truth value: common/context/parser.y and lcfgctxlist_simple_query of
-- common/context/list.c evaluate an expression by Boolean connectives, from the left.
use lcfg_core.Common.{
  ℕ, zero, suc, ◌≡◌, refl, Bool, true, false, not, ◌&&◌, ◌||◌, Option, none, some, [], Bytes,
  CString, ℤ, pos, negsuc, ◌-ℤ◌, sub_ℕ, is_zero, if◌then◌else◌, Heap, arith,
}
use lcfg_core.Context.{Context, at_least_one}
use lcfg_core.Context.Contexts.{
  ContextList, Test, test_istrue, test_isfalse, test_iseq, test_isne, minus, simple_query, holds,
  find_context, find_node, context_at, priority_of,
}
use lcfg_core.Context.Expression.{
  Operator, op_or, op_xor, op_and, Atom, named, not_named, equals_string, differs_string,
  equals_name, differs_name, equals_bool, differs_bool, bool_test, greater, lesser, combine,
  query_atom, eval_query,
}
use lcfg_core.Context.Parser.{eval_query-value}
use lcfg_core.Context.Grammar.{
  Sort, of_expression, Tree, atom, group, not_group, single, chain, value, tokens,
}
use lcfg_core.PackageList.Merge.{is_positive}

-- The integer is not zero, and it is positive where the truth value is true.
abbrev pub Agrees : ℤ → Bool → Type 0
Agrees z b = (is_positive z ≡ b) × (is_zero z ≡ false)

abbrev pub connective : Operator → Bool → Bool → Bool
connective op_or a b = a || b
connective op_xor true b = not b
connective op_xor false b = b
connective op_and a b = a && b

combine-Agrees :
    (op : Operator) (x y : ℤ) (a b : Bool)
    → Agrees x a
    → Agrees y b
    → Agrees (combine op x y) (connective op a b)
unfolding combine greater lesser ◌-ℤ◌ sub_ℕ
combine-Agrees op (pos zero) y a b (h, n) k = ground (arith, n)
combine-Agrees op (pos (suc m)) (pos zero) a b h (k, n) = ground (arith, n)
combine-Agrees op (negsuc m) (pos zero) a b h (k, n) = ground (arith, n)
combine-Agrees op_or (pos (suc m)) (pos (suc n)) a b (h, _) (k, _) = ground (arith, h, k)
combine-Agrees op_or (pos (suc m)) (negsuc n) a b (h, _) (k, _) = ground (arith, h, k)
combine-Agrees op_or (negsuc m) (pos (suc n)) a b (h, _) (k, _) = ground (arith, h, k)
combine-Agrees op_or (negsuc m) (negsuc n) a b (h, _) (k, _) = ground (arith, h, k)
combine-Agrees op_xor (pos (suc m)) (pos (suc n)) a b (h, _) (k, _) = ground (arith, h, k)
combine-Agrees op_xor (pos (suc m)) (negsuc n) a b (h, _) (k, _) = ground (arith, h, k)
combine-Agrees op_xor (negsuc m) (pos (suc n)) a b (h, _) (k, _) = ground (arith, h, k)
combine-Agrees op_xor (negsuc m) (negsuc n) a b (h, _) (k, _) = ground (arith, h, k)
combine-Agrees op_and (pos (suc m)) (pos (suc n)) a b (h, _) (k, _) = ground (arith, h, k)
combine-Agrees op_and (pos (suc m)) (negsuc n) a b (h, _) (k, _) = ground (arith, h, k)
combine-Agrees op_and (negsuc m) (pos (suc n)) a b (h, _) (k, _) = ground (arith, h, k)
combine-Agrees op_and (negsuc m) (negsuc n) a b (h, _) (k, _) = ground (arith, h, k)

minus-Agrees : (z : ℤ) (b : Bool) → Agrees z b → Agrees (minus z) (not b)
minus-Agrees (pos zero) b (h, n) = ground (arith, n)
minus-Agrees (pos (suc m)) b (h, n) = ground (arith, h)
minus-Agrees (negsuc m) b (h, n) = ground (arith, h)

at_least_one-Agrees : (z : ℤ) → at_least_one z ≡ true → Agrees z true
at_least_one-Agrees (pos zero) h = ground (arith, h)
at_least_one-Agrees (pos (suc m)) h = ground arith
at_least_one-Agrees (negsuc m) h = ground (arith, h)

query-Agrees : (z : ℤ) (b : Bool) → at_least_one z ≡ true → Agrees (if b then z else minus z) b
query-Agrees z true h = at_least_one-Agrees z h
query-Agrees z false h = minus-Agrees z true (at_least_one-Agrees z h)

context_at-ranked :
    (h : Heap Context) (node : Option (ℕ × ℕ))
    → ((p : ℕ) → at_least_one (h p).priority ≡ true)
    → at_least_one (priority_of (context_at h node)) ≡ true
context_at-ranked h none ranked = refl
context_at-ranked h (some (i, p)) ranked = ranked p

priority_of-ranked :
    (h : Heap Context) (ctxlist : Option ContextList)
    → ((p : ℕ) → at_least_one (h p).priority ≡ true)
    → (name : Bytes) → at_least_one (priority_of (find_context h ctxlist name)) ≡ true
unfolding find_context
priority_of-ranked h none ranked name = refl
priority_of-ranked h (some list) ranked name = context_at-ranked h (find_node h list name) ranked

module _ (h : Heap Context) (ctxlist : Option ContextList) where
  -- The truth of a test, of a context that may be unknown.
  abbrev pub is_so : Bytes → CString → Test → Bool
  is_so name value test = holds (find_context h ctxlist name) value test

  unfoldable pub atom_truth : Atom → Bool
  atom_truth (named n) = is_so n none test_istrue
  atom_truth (not_named n) = is_so n none test_isfalse
  atom_truth (equals_string n v) = is_so n (some v) test_iseq
  atom_truth (differs_string n v) = is_so n (some v) test_isne
  atom_truth (equals_name n v) = is_so n (some v) test_iseq
  atom_truth (differs_name n v) = is_so n (some v) test_isne
  atom_truth (equals_bool n b) = is_so n none (bool_test b)
  atom_truth (differs_bool n b) = not (is_so n none (bool_test b))

  -- The truth of an expression. As in the grammar, an operator takes all that stands to its left
  -- as its first operand, whatever the operators there are: `a | b & c` is `(a | b) & c`.
  unfoldable pub truth : {s : Sort} → Tree s → Bool
  unfolding atom_truth
  truth (atom a) = atom_truth a
  truth (group e) = truth e
  truth (not_group e) = not (truth e)
  truth (single t) = truth t
  truth (chain e op t) = connective op (truth e) (truth t)

  module _ (ranked : (p : ℕ) → at_least_one (h p).priority ≡ true) where
    simple_query-Agrees :
        (name : Bytes) (value : CString) (test : Test)
        → Agrees (simple_query h ctxlist name value test) (is_so name value test)
    unfolding simple_query
    simple_query-Agrees name value test =
        query-Agrees (priority_of (find_context h ctxlist name)) (is_so name value test)
          (priority_of-ranked h ctxlist ranked name)

    query_atom-Agrees : (a : Atom) → Agrees (query_atom h ctxlist a) (atom_truth a)
    unfolding query_atom atom_truth
    query_atom-Agrees (named n) = simple_query-Agrees n none test_istrue
    query_atom-Agrees (not_named n) = simple_query-Agrees n none test_isfalse
    query_atom-Agrees (equals_string n v) = simple_query-Agrees n (some v) test_iseq
    query_atom-Agrees (differs_string n v) = simple_query-Agrees n (some v) test_isne
    query_atom-Agrees (equals_name n v) = simple_query-Agrees n (some v) test_iseq
    query_atom-Agrees (differs_name n v) = simple_query-Agrees n (some v) test_isne
    query_atom-Agrees (equals_bool n b) = simple_query-Agrees n none (bool_test b)
    query_atom-Agrees (differs_bool n b) =
        minus-Agrees _ _ (simple_query-Agrees n none (bool_test b))

    value-Agrees : {s : Sort} (e : Tree s) → Agrees (value h ctxlist e) (truth e)
    unfolding value truth
    value-Agrees (atom a) = query_atom-Agrees a
    value-Agrees (group e) = value-Agrees e
    value-Agrees (not_group e) = minus-Agrees _ _ (value-Agrees e)
    value-Agrees (single t) = value-Agrees t
    value-Agrees (chain e op t) = combine-Agrees op _ _ _ _ (value-Agrees e) (value-Agrees t)

-- The query of an expression succeeds, and its priority is positive where the expression is true
-- and negative where it is false, never zero, provided that the priorities of all contexts on the
-- heap are 1 at least. The truth applies OR, AND and exclusive OR one after the other from the
-- left, without precedence: `a | b & c` is `(a | b) & c`. Of two true operands of XOR the priority
-- is thus negative.
pub eval_query-Agrees :
    (h : Heap Context) (ctxlist : Option ContextList) (e : Tree of_expression)
    → ((p : ℕ) → at_least_one (h p).priority ≡ true)
    → (z : ℤ) × (eval_query h ctxlist (tokens e []) ≡ some z) × Agrees z (truth h ctxlist e)
eval_query-Agrees h ctxlist e ranked =
    (value h ctxlist e, eval_query-value h ctxlist e, value-Agrees h ctxlist ranked e)
