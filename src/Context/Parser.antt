-- ===== src/Context/Parser.antt =====
-- The parser of common/context/parser.y on the tokens of a tree of its grammar.
use lcfg_core.Common.{
  ℕ, zero, suc, ◌+◌, ◌-◌, ◌≤◌, ◌<◌, ◌≡◌, refl, ap, ◌∙◌, Option, some, List, [], ◌∷◌, ◌++◌, ℤ,
  length, length-append, Heap, arith,
}
use lcfg_core.Context.{Context}
use lcfg_core.Context.Contexts.{ContextList}
use lcfg_core.Context.Expression.{
  Operator, Token, ctx_name, value_string, value_bool, cmp_eq, cmp_ne, op_not, open_paren,
  close_paren, operator, Atom, named, not_named, equals_string, differs_string, equals_name,
  differs_name, equals_bool, differs_bool, combine, query_atom, and_then, closed, negated,
  parse_term, parse_operators, parse_expression, complete, eval_query,
}
use lcfg_core.Context.Grammar.{
  Sort, of_term, of_expression, Tree, atom, group, not_group, single, chain, atom_tokens, tokens,
  size, operators, value,
}

-- No comparison follows: a name in front of these tokens stands for itself.
unfoldable pub Follows : List Token → Type 0
Follows [] = Unit
Follows (operator op ∷ ts) = Unit
Follows (close_paren ∷ ts) = Unit
Follows (t ∷ ts) = ⊥

-- No operator follows either: an expression is complete.
unfoldable pub Ends : List Token → Type 0
Ends [] = Unit
Ends (close_paren ∷ ts) = Unit
Ends (t ∷ ts) = ⊥

operators-size : {s : Sort} (e : Tree s) → operators e ≤ size e
unfolding operators size
operators-size (atom a) = omega arith
operators-size (group e) = omega arith
operators-size (not_group e) = omega arith
operators-size (single t) = omega arith
operators-size (chain e op t) = omega (arith, operators-size e)

module _ (h : Heap Context) (ctxlist : Option ContextList) where
  parse_term-atom :
      (expression : List Token → Option (ℤ × List Token)) (a : Atom) (rest : List Token)
      → Follows rest
      → parse_term h ctxlist expression (atom_tokens a ++ rest)
        ≡ some (query_atom h ctxlist a, rest)
  unfolding parse_term atom_tokens Follows
  parse_term-atom expression (named n) [] f = refl
  parse_term-atom expression (named n) (operator op ∷ ts) f = refl
  parse_term-atom expression (named n) (close_paren ∷ ts) f = refl
  parse_term-atom expression (named n) (ctx_name m ∷ ts) f = elim f [ ]
  parse_term-atom expression (named n) (value_string m ∷ ts) f = elim f [ ]
  parse_term-atom expression (named n) (value_bool m ∷ ts) f = elim f [ ]
  parse_term-atom expression (named n) (cmp_eq ∷ ts) f = elim f [ ]
  parse_term-atom expression (named n) (cmp_ne ∷ ts) f = elim f [ ]
  parse_term-atom expression (named n) (op_not ∷ ts) f = elim f [ ]
  parse_term-atom expression (named n) (open_paren ∷ ts) f = elim f [ ]
  parse_term-atom expression (not_named n) rest f = refl
  parse_term-atom expression (equals_string n v) rest f = refl
  parse_term-atom expression (differs_string n v) rest f = refl
  parse_term-atom expression (equals_name n v) rest f = refl
  parse_term-atom expression (differs_name n v) rest f = refl
  parse_term-atom expression (equals_bool n b) rest f = refl
  parse_term-atom expression (differs_bool n b) rest f = refl

  parse_operators-Ends :
      (term : List Token → Option (ℤ × List Token)) (n : ℕ) (v : ℤ) (rest : List Token)
      → Ends rest
      → parse_operators h ctxlist term n v rest ≡ some (v, rest)
  unfolding parse_operators Ends
  parse_operators-Ends term zero v rest f = refl
  parse_operators-Ends term (suc n) v [] f = refl
  parse_operators-Ends term (suc n) v (close_paren ∷ ts) f = refl
  parse_operators-Ends term (suc n) v (operator op ∷ ts) f = elim f [ ]
  parse_operators-Ends term (suc n) v (ctx_name m ∷ ts) f = elim f [ ]
  parse_operators-Ends term (suc n) v (value_string m ∷ ts) f = elim f [ ]
  parse_operators-Ends term (suc n) v (value_bool m ∷ ts) f = elim f [ ]
  parse_operators-Ends term (suc n) v (cmp_eq ∷ ts) f = elim f [ ]
  parse_operators-Ends term (suc n) v (cmp_ne ∷ ts) f = elim f [ ]
  parse_operators-Ends term (suc n) v (op_not ∷ ts) f = elim f [ ]
  parse_operators-Ends term (suc n) v (open_paren ∷ ts) f = elim f [ ]

  -- The parser of terms at a depth.
  abbrev pub term_at : ℕ → List Token → Option (ℤ × List Token)
  term_at fuel us = parse_term h ctxlist (λ vs. parse_expression h ctxlist fuel vs) us

  term_at-group :
      (fuel : ℕ) (ts : List Token)
      → term_at fuel (open_paren ∷ ts) ≡ closed h ctxlist (parse_expression h ctxlist fuel ts)
  unfolding parse_term
  term_at-group fuel ts = refl

  term_at-not_group :
      (fuel : ℕ) (ts : List Token)
      → term_at fuel (op_not ∷ open_paren ∷ ts)
        ≡ negated h ctxlist (closed h ctxlist (parse_expression h ctxlist fuel ts))
  unfolding parse_term
  term_at-not_group fuel ts = refl

  parse_expression-term :
      (fuel : ℕ) (ts rest : List Token) (v : ℤ)
      → term_at fuel ts ≡ some (v, rest)
      → parse_expression h ctxlist (suc fuel) ts
        ≡ parse_operators h ctxlist (term_at fuel) fuel v rest
  unfolding parse_expression
  parse_expression-term fuel ts rest v e =
      ap (λ r. and_then h ctxlist r (λ w us. parse_operators h ctxlist (term_at fuel) fuel w us)) e

  parse_operators-operator :
      (term : List Token → Option (ℤ × List Token)) (n : ℕ) (v w : ℤ) (op : Operator)
      → (ts rest : List Token) → term ts ≡ some (w, rest)
      → parse_operators h ctxlist term (suc n) v (operator op ∷ ts)
        ≡ parse_operators h ctxlist term n (combine op v w) rest
  unfolding parse_operators
  parse_operators-operator term n v w op ts rest e =
      ap (λ r. and_then h ctxlist r (λ x us. parse_operators h ctxlist term n (combine op v x) us))
        e

  -- A term is read to its end; an expression is read up to its end, where operators may follow.
  unfoldable pub Parses : (s : Sort) → ℕ → Tree s → Type 0
  Parses of_term fuel t =
      (rest : List Token)
      → Follows rest
      → term_at fuel (tokens t rest) ≡ some (value h ctxlist t, rest)
  Parses of_expression fuel e =
      (rest : List Token)
      → Follows rest
      → parse_expression h ctxlist (suc fuel) (tokens e rest)
        ≡ parse_operators h ctxlist (term_at fuel) (fuel - operators e) (value h ctxlist e) rest

  -- An expression in front of a closing bracket.
  in_brackets :
      (e : Tree of_expression) (fuel : ℕ) (rest : List Token)
      → Parses of_expression fuel e
      → parse_expression h ctxlist (suc fuel) (tokens e (close_paren ∷ rest))
        ≡ some (value h ctxlist e, close_paren ∷ rest)
  unfolding Parses Follows Ends
  in_brackets e fuel rest parsed =
      parsed (close_paren ∷ rest) tt
      ∙ parse_operators-Ends (term_at fuel) (fuel - operators e) (value h ctxlist e)
          (close_paren ∷ rest) tt

  parses : {s : Sort} (e : Tree s) (fuel : ℕ) → size e ≤ fuel → Parses s fuel e
  unfolding Parses tokens size value operators Follows
  parses (atom a) fuel room = λ rest f. parse_term-atom _ a rest f
  parses (group e) zero room = λ rest f. ground (arith, room)
  parses (group e) (suc fuel) room = λ rest f.
      term_at-group (suc fuel) (tokens e (close_paren ∷ rest))
      ∙ ap (closed h ctxlist) (in_brackets e fuel rest (parses e fuel (omega (arith, room))))
  parses (not_group e) zero room = λ rest f. ground (arith, room)
  parses (not_group e) (suc fuel) room = λ rest f.
      term_at-not_group (suc fuel) (tokens e (close_paren ∷ rest))
      ∙ ap (λ r. negated h ctxlist (closed h ctxlist r))
          (in_brackets e fuel rest (parses e fuel (omega (arith, room))))
  parses (single t) fuel room = λ rest f.
      parse_expression-term fuel (tokens t rest) rest (value h ctxlist t)
        (parses t fuel room rest f)
      ∙ ap (λ n. parse_operators h ctxlist (term_at fuel) n (value h ctxlist t) rest) (omega arith)
  parses (chain e op t) fuel room = λ rest f.
      let left : fuel - operators e ≡ suc (fuel - suc (operators e)) =
        omega (arith, room, operators-size e) in
      parses e fuel (omega (arith, room)) (operator op ∷ tokens t rest) tt
      ∙ ap
          (λ n.
            parse_operators h ctxlist (term_at fuel) n (value h ctxlist e)
              (operator op ∷ tokens t rest))
          left
      ∙ parse_operators-operator (term_at fuel) (fuel - suc (operators e)) (value h ctxlist e)
          (value h ctxlist t) op (tokens t rest) rest (parses t fuel (omega (arith, room)) rest f)

tokens-length :
    {s : Sort} (e : Tree s) (rest : List Token) → length (tokens e rest) ≡ size e + length rest
unfolding tokens size
tokens-length (atom a) rest = length-append (atom_tokens a) rest
tokens-length (group e) rest = omega (arith, tokens-length e (close_paren ∷ rest))
tokens-length (not_group e) rest = omega (arith, tokens-length e (close_paren ∷ rest))
tokens-length (single t) rest = tokens-length t rest
tokens-length (chain e op t) rest =
    omega (arith, tokens-length e (operator op ∷ tokens t rest), tokens-length t rest)

size_positive : {s : Sort} (e : Tree s) → 0 < size e
unfolding size atom_tokens
size_positive (atom (named n)) = omega arith
size_positive (atom (not_named n)) = omega arith
size_positive (atom (equals_string n v)) = omega arith
size_positive (atom (differs_string n v)) = omega arith
size_positive (atom (equals_name n v)) = omega arith
size_positive (atom (differs_name n v)) = omega arith
size_positive (atom (equals_bool n b)) = omega arith
size_positive (atom (differs_bool n b)) = omega arith
size_positive (group e) = omega arith
size_positive (not_group e) = omega arith
size_positive (single t) = size_positive t
size_positive (chain e op t) = omega arith

eval_query-complete :
    (h : Heap Context) (ctxlist : Option ContextList) (ts : List Token)
    → 0 < length ts
    → eval_query h ctxlist ts ≡ complete h ctxlist (parse_expression h ctxlist (suc (length ts)) ts)
unfolding eval_query
eval_query-complete h ctxlist [] l = ground (arith, l)
eval_query-complete h ctxlist (t ∷ ts) l = refl

-- The parser accepts the tokens of every tree of the grammar and returns what the tree means: the
-- operators are applied from the left, whichever they are.
pub eval_query-value :
    (h : Heap Context) (ctxlist : Option ContextList) (e : Tree of_expression)
    → eval_query h ctxlist (tokens e []) ≡ some (value h ctxlist e)
unfolding Parses Follows Ends
eval_query-value h ctxlist e =
    let ts = tokens e [] in
    let l = tokens-length e [] in
    eval_query-complete h ctxlist ts (omega (arith, l, size_positive e))
    ∙ ap (complete h ctxlist) (
        parses h ctxlist e (length ts) (omega (arith, l)) [] tt
        ∙ parse_operators-Ends h ctxlist (term_at h ctxlist (length ts)) (length ts - operators e)
            (value h ctxlist e) [] tt)
