-- ===== src/ResourceList/Unique.antt =====
-- The primary keys of the resources in a list, and the search for one of them:
-- resources/components/reslist.c.
use lcfg_core.Common.{
  ℕ, ◌≡◌, refl, ap, Bool, true, false, not, ◌&&◌, ◌||◌, Option, none, some, List, [], ◌∷◌, ◌++◌,
  or_default, if◌then◌else◌, Bool-cases, inl, inr, Heap,
}
use lcfg_core.Package.Version.Segments.{IsText}
use lcfg_core.PackageList.Keys.{Key, triple, strcmp_zero, strcmp_refl}
use lcfg_core.PackageList.Unique.{IsFree, IsUnique}
use lcfg_core.Resource.{Resource, is_valid}
use lcfg_core.Resource.Compare.{same_name, same_context}
use lcfg_core.ResourceList.{Node}
use lcfg_core.ResourceList.Merge.{matches, search, after_node}

-- The fields of the primary key.
abbrev pub key_of : Bool → Resource → Key
key_of by_context res =
    triple (or_default res.name []) [] (if by_context then or_default res.context [] else [])

-- No name and no context of a resource holds a NUL.
pub record IsProper (res : Resource) : Type 0 where
  pub name : IsText (or_default res.name [])
  pub context : IsText (or_default res.context [])

both : (a b : Bool) → (a && b) ≡ true → (a ≡ true) × (b ≡ true)
both true true h = (refl, refl)
both true false h = cc
both false b h = cc

after_node-none : (p : ℕ) (o : Option Node) → after_node p o ≡ none → o ≡ none
after_node-none p none e = refl
after_node-none p (some (xs, q, ys)) e = cc

module _ (h : Heap Resource) (p : ℕ) (texts : (q : ℕ) → IsProper (h q)) where
  pub matches-key : (b : Bool) (q : ℕ) → matches h b p q ≡ true → key_of b (h q) ≡ key_of b (h p)
  unfolding matches same_name same_context
  matches-key b q e =
      let (names, contexts) = both (same_name (h q) (h p)) (not b || same_context (h q) (h p)) e in
      let name =
        strcmp_zero (or_default (h q).name []) (or_default (h p).name []) (texts q).name
          (texts p).name names in
      elim (Bool-cases b) [
        | inr bare ↦ rw (bare, name) refl
        | inl ctx ↦
            let contexts' = rw ctx at contexts in
            let context =
              strcmp_zero (or_default (h q).context []) (or_default (h p).context [])
                (texts q).context (texts p).context contexts' in
            rw (ctx, name, context) refl
      ]

  pub key-matches : (b : Bool) (q : ℕ) → key_of b (h q) ≡ key_of b (h p) → matches h b p q ≡ true
  unfolding matches same_name same_context
  key-matches b q e =
      let name : or_default (h q).name [] ≡ or_default (h p).name [] = ap (λ k. k.0) e in
      let names : same_name (h q) (h p) ≡ true = rw name (strcmp_refl (or_default (h p).name [])) in
      elim (Bool-cases b) [
        | inr bare ↦ rw (bare, names) refl
        | inl ctx ↦
            let e' = rw ctx at e in
            let context : or_default (h q).context [] ≡ or_default (h p).context [] =
              ap (λ k. k.2) e' in
            let contexts : same_context (h q) (h p) ≡ true =
              rw context (strcmp_refl (or_default (h p).context [])) in
            rw (ctx, names, contexts) refl
      ]

  -- A search that finds nothing has passed other keys only.
  pub search-IsFree :
      (b : Bool) (ps : List ℕ)
      → search (matches h b p) ps ≡ none
      → IsUnique (λ q. is_valid (h q)) (λ q. key_of b (h q)) ps
      → IsFree (λ q. is_valid (h q)) (λ q. key_of b (h q)) (key_of b (h p)) ps
  unfolding search
  search-IsFree b [] e u = tt
  search-IsFree b (q ∷ ps) e (valid, _, u) = elim (Bool-cases (matches h b p q)) [
    | inl found ↦ let bad = rw found at e in cc
    | inr passed ↦
        let e' = rw passed at e in
        let absent : search (matches h b p) ps ≡ none =
          after_node-none q (search (matches h b p) ps) e' in
        (valid, (λ same. let bad = key-matches b q same in cc), search-IsFree b ps absent u)
  ]

-- The node splits the list at a resource that was looked for.
abbrev pub IsSplit : (ℕ → Bool) → List ℕ → Option Node → Type 0
IsSplit found ps none = Unit
IsSplit found ps (some (xs, q, ys)) = (ps ≡ xs ++ q ∷ ys) × (found q ≡ true)

IsSplit-after :
    (found : ℕ → Bool) (ps : List ℕ) (p : ℕ) (o : Option Node)
    → IsSplit found ps o
    → IsSplit found (p ∷ ps) (after_node p o)
IsSplit-after found ps p none s = tt
IsSplit-after found ps p (some (xs, q, ys)) (split, holds) = (ap (λ l. p ∷ l) split, holds)

pub search-IsSplit : (found : ℕ → Bool) (ps : List ℕ) → IsSplit found ps (search found ps)
unfolding search
search-IsSplit found [] = tt
search-IsSplit found (p ∷ ps) = elim (Bool-cases (found p)) [
  | inl here ↦ rw here (refl, here)
  | inr passed ↦ rw passed (IsSplit-after found ps p (search found ps) (search-IsSplit found ps))
]
