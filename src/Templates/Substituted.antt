-- ===== src/Templates/Substituted.antt =====
-- What lcfgtemplate_substitute returns: resources/templates.c.
use lcfg_core.Common.{
  ℕ, suc, ◌+◌, ◌-◌, ◌≤◌, ◌<◌, ◌≡◌, refl, sym, ap, ◌∙◌, Bool, true, false, Option, none, some, List,
  [], ◌∷◌, ◌++◌, Bytes, or_default, length, length-append, take, ltb, ◌==◌, if◌then◌else◌, arith,
  Bool-cases, inl, inr, strstr, Position,
}
use lcfg_core.Utils.Words.{append_nil}
use lcfg_core.Tags.{Tag, TagList, TagHeap}
use lcfg_core.Templates.{
  Template, placeholder, places_from, valid_template, with_tmpl, set_split, set_tmpl,
}
use lcfg_core.Templates
use lcfg_core.Templates.Substitute.{tags_back, add_lengths, substitute_loop, copy_start, substitute}
use lcfg_core.Templates.Filled.{
  fill, last_hole, names_back, AreMeasured, length-names_back, fill-none,
}
use lcfg_core.Templates.Copies.{
  Copies-last, Copies-loop, length-fill-last, places-holes, plain-places, no_cons, cons_head,
}

-- The fields of a template that was set to a text.
pub record IsSetTo (t : Template) (s : Bytes) : Type 0 where
  pub text : t.tmpl ≡ some s
  pub measured : t.tmpl_len ≡ length s
  pub offsets : t.places ≡ places_from 0 s []
  pub counted : t.pcount ≡ length (places_from 0 s [])

with_tmpl-IsSetTo : (s name : Bytes) → IsSetTo (with_tmpl Templates.new s name) s
unfolding with_tmpl Templates.new
with_tmpl-IsSetTo s name = record {
  text = refl;
  measured = refl;
  offsets = refl;
  counted = omega arith;
}

pub no_result : (t u : Template) → ◌≡◌ {A = Template × Bool} (t, false) (u, true) → ⊥
no_result t u h = cc

same_result : (t u : Template) → ◌≡◌ {A = Template × Bool} (t, true) (u, true) → t ≡ u
same_result t u h = cc

set_split-IsSetTo :
    (s : Bytes) (p : Option Position) (t : Template)
    → set_split Templates.new s p ≡ (t, true)
    → IsSetTo t s
unfolding set_split
set_split-IsSetTo s none t h = absurd (no_result Templates.new t h)
set_split-IsSetTo s (some (passed, rest)) t h =
    rw (← same_result (with_tmpl Templates.new s passed) t h) (with_tmpl-IsSetTo s passed)

pub set_tmpl-IsSetTo :
    (s : Bytes) (t : Template) → set_tmpl Templates.new s ≡ (t, true) → IsSetTo t s
unfolding set_tmpl
set_tmpl-IsSetTo s t h = elim (Bool-cases (valid_template (some s))) [
  | inl e ↦ set_split-IsSetTo s (strstr (b'_' ∷ placeholder ∷ []) [] s) t (rw e at h)
  | inr e ↦ absurd (no_result Templates.new t (rw e at h))
]

places-snoc :
    (u : Bytes) (i : ℕ) (later : List ℕ)
    → places_from i (u ++ placeholder ∷ []) later ≡ (i + length u) ∷ places_from i u later
unfolding places_from
places-snoc [] i later = ap (λ (x : ℕ). x ∷ later) (omega arith)
places-snoc (c ∷ u) i later =
    places-snoc u (i + 1) (if c == placeholder then i ∷ later else later)
    ∙ ap (λ (x : ℕ). x ∷ places_from (i + 1) u (if c == placeholder then i ∷ later else later))
        (omega arith)

add_lengths-text :
    (a front rest : Bytes) (p x : ℕ) (ps : List ℕ) (t : Tag) (tags : List Tag)
    → a ≡ front ++ placeholder ∷ rest
    → t.name_len ≡ length (or_default t.name [])
    → add_lengths (length front + (length (or_default t.name []) + length rest + x)) ps tags
      ≡ length (fill front (names_back (length ps) tags))
        + (length (or_default t.name []) + length rest + x)
    → length (fill a (names_back (length (p ∷ ps)) (t ∷ tags)))
      ≡ length (fill front (names_back (length ps) tags))
        + (length (or_default t.name []) + length rest)
    → add_lengths (length a + x) (p ∷ ps) (t ∷ tags)
      ≡ length (fill a (names_back (length (p ∷ ps)) (t ∷ tags))) + x
unfolding add_lengths
add_lengths-text a front rest p x ps t tags e m ih f =
    let n = length (or_default t.name []) in
    let k = ap (λ (y : Bytes). length y) e in
    let k' = length-append front (placeholder ∷ rest) in
    let acc : length a + x + t.name_len - 1 ≡ length front + (n + length rest + x) =
      omega (arith, k, k', m) in
    rw (acc, ih) (omega (arith, f))

add_lengths-loop :
    (ps : List ℕ) (a : Bytes) (tags : List Tag) (x : ℕ)
    → places_from 0 a [] ≡ ps
    → length ps ≤ length tags
    → AreMeasured tags
    → add_lengths (length a + x) ps tags ≡ length (fill a (names_back (length ps) tags)) + x
unfolding add_lengths
add_lengths-loop [] a tags x p l m = rw (fill-none a) refl
add_lengths-loop (p ∷ ps) a [] x e l m = absurd (omega (arith, l))
add_lengths-loop (p ∷ ps) a (t ∷ tags) x e l (m, ms) = elim (last_hole a) [
  | inl plain ↦ absurd (no_cons p ps (sym (plain-places a plain) ∙ e))
  | inr h ↦
      let (q, qs) =
        cons_head (0 + length h.front) p (places_from 0 h.front []) ps (sym (h.offsets 0 []) ∙ e) in
      add_lengths-text a h.front h.rest p x ps t tags h.text m
        (add_lengths-loop ps h.front tags (length (or_default t.name []) + length h.rest + x) qs
          (omega (arith, l)) ms)
        (ap (λ (y : Bytes). length (fill y (names_back (length (p ∷ ps)) (t ∷ tags)))) h.text
          ∙ length-fill-last h.front h.rest (or_default t.name []) (names_back (length ps) tags)
              h.plain
              (length-names_back (length ps) tags (omega (arith, l)) ∙ places-holes h.front ps qs))
]

or_default_snoc : (u : Bytes) → or_default (some (u ++ placeholder ∷ [])) [] ≡ u ++ placeholder ∷ []
or_default_snoc [] = refl
or_default_snoc (c ∷ u) = refl

snoc_end : (u : Bytes) → length (u ++ placeholder ∷ []) - 1 - (length u + 1) ≡ 0
snoc_end u = let k = length-append u (placeholder ∷ []) in omega (arith, k)

-- The names that fill a text that ends in a placeholder.
abbrev filled_text : Bytes → List Tag → Bytes
filled_text u tags =
    fill (u ++ placeholder ∷ []) (names_back (suc (length (places_from 0 u []))) tags)

-- The loop on a text that ends in a placeholder.
loop-fill :
    (u : Bytes) (tags : List Tag)
    → length (places_from 0 u []) < length tags
    → AreMeasured tags
    → copy_start (u ++ placeholder ∷ []) (
        substitute_loop
          (u ++ placeholder ∷ [])
          (length u ∷ places_from 0 u [])
          tags
          (length (u ++ placeholder ∷ []) - 1)
          (length (filled_text u tags), []))
      ≡ filled_text u tags
loop-fill u [] l m = absurd (omega (arith, l))
loop-fill u (t ∷ tags) l (m, ms) =
    let ps = places_from 0 u [] in
    let s = u ++ placeholder ∷ [] in
    let copied =
      Copies-last u [] [] [] ps t tags (length s - 1) refl (places-holes u ps refl)
        (omega (arith, l)) m (snoc_end u)
        (Copies-loop ps u (placeholder ∷ []) (or_default t.name [] ++ []) tags refl
          (omega (arith, l)) ms) in
    (rw (append_nil s, append_nil (fill s (names_back (suc (length ps)) (t ∷ tags)))) at copied)

first_places :
    (u : Bytes) → places_from 0 (u ++ placeholder ∷ []) [] ≡ length u ∷ places_from 0 u []
first_places u = places-snoc u 0 [] ∙ ap (λ (x : ℕ). x ∷ places_from 0 u []) (omega arith)

-- The length of the buffer.
add_lengths-fill :
    (u : Bytes) (tags : List Tag)
    → length (places_from 0 u []) < length tags
    → AreMeasured tags
    → add_lengths (length (u ++ placeholder ∷ [])) (length u ∷ places_from 0 u []) tags
      ≡ length (filled_text u tags)
add_lengths-fill u tags l m =
    let s = u ++ placeholder ∷ [] in
    let k =
      add_lengths-loop (length u ∷ places_from 0 u []) s tags 0 (first_places u) (omega (arith, l))
        m in
    let z : length s + 0 ≡ length s = omega arith in (rw z at k) ∙ omega arith

take_list : (s : List ℕ) → take (length s) s ≡ s
take_list [] = refl
take_list (c ∷ s) = ap (λ (x : List ℕ). c ∷ x) (take_list s)

length-tags_back : (h : TagHeap) (ps : List ℕ) → length (tags_back h ps) ≡ length ps
unfolding tags_back
length-tags_back h [] = refl
length-tags_back h (p ∷ ps) =
    length-append (tags_back h ps) (h.tag p ∷ []) ∙ omega (arith, length-tags_back h ps)

-- A template that was set to a text that ends in a placeholder, with the tags of a list in it: the
-- placeholders are replaced from left to right by the names of the last tags of the list, as many
-- as there are placeholders. For a list of the right size with as many tags at least, and tags
-- with the lengths of their names recorded.
pub substitute-fill :
    (h : TagHeap) (t : Template) (u : Bytes) (list : TagList)
    → set_tmpl Templates.new (u ++ placeholder ∷ []) ≡ (t, true)
    → list.size ≡ length list.tags
    → t.pcount ≤ list.size
    → AreMeasured (tags_back h list.tags)
    → substitute h t (some list)
      ≡ some (fill (u ++ placeholder ∷ []) (names_back t.pcount (tags_back h list.tags)))
unfolding substitute
substitute-fill h t u list set sized enough m =
    let s = u ++ placeholder ∷ [] in
    let f = set_tmpl-IsSetTo s t set in
    let tags = tags_back h list.tags in
    let fewer : ltb list.size t.pcount ≡ false = ground (arith, enough) in
    let count : t.pcount ≡ suc (length (places_from 0 u [])) =
      f.counted ∙ ap length (first_places u) in
    let l : length (places_from 0 u []) < length tags =
      omega (arith, enough, count, sized, length-tags_back h list.tags) in
    let places : take t.pcount t.places ≡ length u ∷ places_from 0 u [] =
      rw (count, f.offsets, first_places u) (take_list (length u ∷ places_from 0 u [])) in
    let whole : or_default t.tmpl [] ≡ s = rw f.text (or_default_snoc u) in
    rw (fewer, whole, places, f.measured, add_lengths-fill u tags l m, count)
      (ap some (loop-fill u tags l m))
