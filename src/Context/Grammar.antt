-- ===== src/Context/Grammar.antt =====
-- The grammar of context expressions in common/context/parser.y as trees, and the parser's result
-- on the tokens of a tree.
use lcfg_core.Common.{ℕ, suc, ◌+◌, Option, List, [], ◌∷◌, ◌++◌, ℤ, length, Heap}
use lcfg_core.Context.{Context}
use lcfg_core.Context.Contexts.{ContextList, minus}
use lcfg_core.Context.Expression.{
  Operator, Token, ctx_name, value_string, value_bool, cmp_eq, cmp_ne, op_not, open_paren,
  close_paren, operator, Atom, named, not_named, equals_string, differs_string, equals_name,
  differs_name, equals_bool, differs_bool, combine, query_atom,
}

-- The two sorts of the grammar.
pub data Sort : Type 0 where
  of_term of_expression : Sort

pub data Tree : Sort → Type 0 where
  atom : Atom → Tree of_term
  group : Tree of_expression → Tree of_term
  not_group : Tree of_expression → Tree of_term
  single : Tree of_term → Tree of_expression
  chain : Tree of_expression → Operator → Tree of_term → Tree of_expression

unfoldable pub atom_tokens : Atom → List Token
atom_tokens (named n) = ctx_name n ∷ []
atom_tokens (not_named n) = op_not ∷ ctx_name n ∷ []
atom_tokens (equals_string n v) = ctx_name n ∷ cmp_eq ∷ value_string v ∷ []
atom_tokens (differs_string n v) = ctx_name n ∷ cmp_ne ∷ value_string v ∷ []
atom_tokens (equals_name n v) = ctx_name n ∷ cmp_eq ∷ ctx_name v ∷ []
atom_tokens (differs_name n v) = ctx_name n ∷ cmp_ne ∷ ctx_name v ∷ []
atom_tokens (equals_bool n b) = ctx_name n ∷ cmp_eq ∷ value_bool b ∷ []
atom_tokens (differs_bool n b) = ctx_name n ∷ cmp_ne ∷ value_bool b ∷ []

-- The tokens of a tree, in front of others.
unfoldable pub tokens : {s : Sort} → Tree s → List Token → List Token
unfolding atom_tokens
tokens (atom a) rest = atom_tokens a ++ rest
tokens (group e) rest = open_paren ∷ tokens e (close_paren ∷ rest)
tokens (not_group e) rest = op_not ∷ open_paren ∷ tokens e (close_paren ∷ rest)
tokens (single t) rest = tokens t rest
tokens (chain e op t) rest = tokens e (operator op ∷ tokens t rest)

-- How many tokens a tree has, and how many operators outside brackets.
unfoldable pub size : {s : Sort} → Tree s → ℕ
unfolding atom_tokens
size (atom a) = length (atom_tokens a)
size (group e) = size e + 2
size (not_group e) = size e + 3
size (single t) = size t
size (chain e op t) = size e + suc (size t)

unfoldable pub operators : {s : Sort} → Tree s → ℕ
operators (atom a) = 0
operators (group e) = 0
operators (not_group e) = 0
operators (single t) = 0
operators (chain e op t) = suc (operators e)

module _ (h : Heap Context) (ctxlist : Option ContextList) where
  -- What a tree means.
  unfoldable pub value : {s : Sort} → Tree s → ℤ
  unfolding query_atom combine
  value (atom a) = query_atom h ctxlist a
  value (group e) = value e
  value (not_group e) = minus (value e)
  value (single t) = value t
  value (chain e op t) = combine op (value e) (value t)
