-- ===== src/Context/Expression.antt =====
-- The grammar of context expressions with its actions: common/context/parser.y. An expression is
-- evaluated to a priority, positive where it is true and negative where it is false. The binary
-- operators all have one precedence and associate to the left.
use lcfg_core.Common.{
  ℕ, zero, suc, Bool, true, false, Option, none, some, List, [], ◌∷◌, Bytes, ℤ, pos, ◌-ℤ◌,
  if◌then◌else◌, length, Heap, ◌&&◌,
}
use lcfg_core.Context.{Context}
use lcfg_core.Context.Contexts.{
  ContextList, Test, test_istrue, test_isfalse, test_iseq, test_isne, minus, simple_query,
}
use lcfg_core.PackageList.Merge.{is_positive, is_negative}

pub data Operator : Type 0 where
  op_or op_xor op_and : Operator

pub data Token : Type 0 where
  ctx_name value_string : Bytes → Token
  value_bool : Bool → Token
  cmp_eq cmp_ne op_not open_paren close_paren : Token
  operator : Operator → Token

-- `greater`
unfoldable pub greater : ℤ → ℤ → ℤ
greater a b = if is_positive (a -ℤ b) then a else b

-- `lesser`
unfoldable pub lesser : ℤ → ℤ → ℤ
lesser a b = if is_negative (a -ℤ b) then a else b

-- The actions of the rules for the binary operators.
unfoldable pub combine : Operator → ℤ → ℤ → ℤ
unfolding greater lesser
combine op_or a b = if is_negative a && is_negative b then lesser a b else greater a b
combine op_xor a b =
    if is_negative a && is_negative b
    then lesser a b
    else if is_positive a && is_positive b
    then minus (greater a b)
    else greater a b
combine op_and a b = if is_positive a && is_positive b then greater a b else lesser a b

-- A test of one context, as the rules for a term have it.
pub data Atom : Type 0 where
  named not_named : Bytes → Atom
  equals_string differs_string equals_name differs_name : Bytes → Bytes → Atom
  equals_bool differs_bool : Bytes → Bool → Atom

-- `cmp` for a Boolean value.
abbrev pub bool_test : Bool → Test
bool_test true = test_istrue
bool_test false = test_isfalse

module _ (h : Heap Context) (ctxlist : Option ContextList) where
  -- The action of the rule for a test.
  unfoldable pub query_atom : Atom → ℤ
  unfolding simple_query
  query_atom (named name) = simple_query h ctxlist name none test_istrue
  query_atom (not_named name) = simple_query h ctxlist name none test_isfalse
  query_atom (equals_string name value) = simple_query h ctxlist name (some value) test_iseq
  query_atom (differs_string name value) = simple_query h ctxlist name (some value) test_isne
  query_atom (equals_name name value) = simple_query h ctxlist name (some value) test_iseq
  query_atom (differs_name name value) = simple_query h ctxlist name (some value) test_isne
  query_atom (equals_bool name value) = simple_query h ctxlist name none (bool_test value)
  query_atom (differs_bool name value) = minus (simple_query h ctxlist name none (bool_test value))

  -- The priority of what has been read, and the tokens behind it.
  abbrev pub Parsed : Type 0
  Parsed = Option (ℤ × List Token)

  -- What is read next, if there has been no error.
  abbrev pub and_then : Parsed → (ℤ → List Token → Parsed) → Parsed
  and_then none next = none
  and_then (some (v, ts)) next = next v ts

  abbrev pub closed : Parsed → Parsed
  closed (some (v, close_paren ∷ ts)) = some (v, ts)
  closed _ = none

  abbrev pub negated : Parsed → Parsed
  negated none = none
  negated (some (v, ts)) = some (minus v, ts)

  -- The rules for a term, by a parser of the expressions in brackets.
  unfoldable pub parse_term : (List Token → Parsed) → List Token → Parsed
  unfolding query_atom
  parse_term expression (open_paren ∷ ts) = closed (expression ts)
  parse_term expression (op_not ∷ open_paren ∷ ts) = negated (closed (expression ts))
  parse_term expression (op_not ∷ ctx_name n ∷ ts) = some (query_atom (not_named n), ts)
  parse_term expression (ctx_name n ∷ cmp_eq ∷ value_string v ∷ ts) =
      some (query_atom (equals_string n v), ts)
  parse_term expression (ctx_name n ∷ cmp_eq ∷ ctx_name v ∷ ts) =
      some (query_atom (equals_name n v), ts)
  parse_term expression (ctx_name n ∷ cmp_eq ∷ value_bool b ∷ ts) =
      some (query_atom (equals_bool n b), ts)
  parse_term expression (ctx_name n ∷ cmp_eq ∷ ts) = none
  parse_term expression (ctx_name n ∷ cmp_ne ∷ value_string v ∷ ts) =
      some (query_atom (differs_string n v), ts)
  parse_term expression (ctx_name n ∷ cmp_ne ∷ ctx_name v ∷ ts) =
      some (query_atom (differs_name n v), ts)
  parse_term expression (ctx_name n ∷ cmp_ne ∷ value_bool b ∷ ts) =
      some (query_atom (differs_bool n b), ts)
  parse_term expression (ctx_name n ∷ cmp_ne ∷ ts) = none
  parse_term expression (ctx_name n ∷ ts) = some (query_atom (named n), ts)
  parse_term expression ts = none

  -- The operators and terms behind the first term.
  unfoldable pub parse_operators : (List Token → Parsed) → ℕ → ℤ → List Token → Parsed
  unfolding combine
  parse_operators term (suc fuel) v (operator op ∷ ts) =
      and_then (term ts) (λ w rest. parse_operators term fuel (combine op v w) rest)
  parse_operators term fuel v ts = some (v, ts)

  -- The rules for an expression.
  unfoldable pub parse_expression : ℕ → List Token → Parsed
  unfolding parse_term parse_operators
  parse_expression zero ts = none
  parse_expression (suc fuel) ts =
      and_then (parse_term (λ us. parse_expression fuel us) ts) (λ v rest.
        parse_operators (λ us. parse_term (λ vs. parse_expression fuel vs) us) fuel v rest)

  abbrev pub complete : Parsed → Option ℤ
  complete (some (v, [])) = some v
  complete _ = none

  -- The rules for a query; `none` stands for a syntax error. Each call takes a token at least.
  unfoldable pub eval_query : List Token → Option ℤ
  unfolding parse_expression
  eval_query [] = some (pos 0)
  eval_query (t ∷ ts) = complete (parse_expression (suc (length (t ∷ ts))) (t ∷ ts))
