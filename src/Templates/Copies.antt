-- ===== src/Templates/Copies.antt =====
-- The loop of lcfgtemplate_substitute copies the filled template: resources/templates.c.
use mathlib.Core.List.{append_assoc}
use lcfg_core.Common.{
  ℕ, ◌+◌, ◌-◌, ◌≤◌, ◌≡◌, refl, sym, ap, ◌∙◌, List, [], ◌∷◌, ◌++◌, Bytes, or_default, length,
  length-append, ◌==◌, arith, Bool-cases, inl, inr,
}
use lcfg_core.Resource.KeyParts.{LacksByte}
use lcfg_core.Tags.{Tag}
use lcfg_core.Templates.{placeholder, places_from}
use lcfg_core.Templates.Substitute.{substitute_loop, copy_start}
use lcfg_core.Templates.Filled.{
  fill, holes, places-plain, last_hole, fill-plain, fill-last, names_back, AreMeasured,
  length-names_back, take_all, take_whole, drop_more,
}

step_lem :
    (front rest b written : Bytes) (ps : List ℕ) (t : Tag) (tags : List Tag) (end offset : ℕ)
    (filled : Bytes)
    → t.name_len ≡ length (or_default t.name [])
    → end - (length front + 1) ≡ length rest
    → offset ≡ length filled + (length (or_default t.name []) + length rest)
    → substitute_loop
        (front ++ placeholder ∷ (rest ++ b))
        (length front ∷ ps)
        (t ∷ tags)
        end
        (offset, written)
      ≡ substitute_loop
          (front ++ placeholder ∷ (rest ++ b))
          ps
          tags
          (length front)
          (length filled, or_default t.name [] ++ (rest ++ written))
unfolding substitute_loop
step_lem front rest b written ps t tags end offset filled m e o =
    let name = or_default t.name [] in
    let left : offset - length rest - length name ≡ length filled = omega (arith, o) in
    rw (e, m, drop_more front placeholder (rest ++ b), take_all rest b, take_whole name, left) refl

length-places :
    (a : Bytes) (i : ℕ) (later : List ℕ) → length (places_from i a later) ≡ holes a + length later
unfolding places_from holes
length-places [] i later = omega arith
length-places (c ∷ a) i later = elim (Bool-cases (c == placeholder)) [
  | inl e ↦ let k = length-places a (i + 1) (i ∷ later) in rw e (omega (arith, k))
  | inr e ↦ let k = length-places a (i + 1) later in rw e (omega (arith, k))
]

-- What the loop leaves, from a place where the template `a ++ b` is read up to the end of `a`.
abbrev pub Copies : Bytes → Bytes → Bytes → List ℕ → List Tag → ℕ → ℕ → Type 0
Copies a b written ps tags end offset =
    copy_start (a ++ b) (substitute_loop (a ++ b) ps tags end (offset, written))
    ≡ fill a (names_back (length ps) tags) ++ written

Copies-plain :
    (a b written : Bytes) (tags : List Tag) (end : ℕ)
    → LacksByte placeholder a
    → Copies a b written [] tags end (length (fill a []))
unfolding substitute_loop
Copies-plain a b written tags end h = rw (fill-plain a [] h, take_all a b) refl

-- The length of the last part, and of all in front of it.
pub length-fill-last :
    (front rest n : Bytes) (ns : List Bytes)
    → LacksByte placeholder rest
    → length ns ≡ holes front
    → length (fill (front ++ placeholder ∷ rest) (ns ++ n ∷ []))
      ≡ length (fill front ns) + (length n + length rest)
length-fill-last front rest n ns h k =
    ap length (fill-last front rest n ns h k)
    ∙ (length-append (fill front ns) (n ++ rest)
        ∙ ap (λ (x : ℕ). length (fill front ns) + x) (length-append n rest))

front_end :
    (front rest : Bytes) → length (front ++ placeholder ∷ rest) - (length front + 1) ≡ length rest
front_end front rest = let k = length-append front (placeholder ∷ rest) in omega (arith, k)

-- One round, where the rest of the loop copies what is in front.
pub Copies-last :
    (front rest b written : Bytes) (ps : List ℕ) (t : Tag) (tags : List Tag) (end : ℕ)
    → LacksByte placeholder rest
    → length ps ≡ holes front
    → length ps ≤ length tags
    → t.name_len ≡ length (or_default t.name [])
    → end - (length front + 1) ≡ length rest
    → Copies front
        (placeholder ∷ (rest ++ b))
        (or_default t.name [] ++ (rest ++ written))
        ps
        tags
        (length front)
        (length (fill front (names_back (length ps) tags)))
    → Copies (front ++ placeholder ∷ rest) b written (length front ∷ ps) (t ∷ tags) end (
        length
          (fill (front ++ placeholder ∷ rest) (names_back (length (length front ∷ ps)) (t ∷ tags))))
Copies-last front rest b written ps t tags end plain k l m e ih =
    let ns = names_back (length ps) tags in
    let n = or_default t.name [] in
    let counted : length ns ≡ holes front = length-names_back (length ps) tags l ∙ k in
    rw
      (
        append_assoc front (placeholder ∷ rest) b,
        step_lem front rest b written ps t tags end
            (length (fill (front ++ placeholder ∷ rest) (ns ++ n ∷ []))) (fill front ns) m e
            (length-fill-last front rest n ns plain counted),
        ih,
        fill-last front rest n ns plain counted,
      )
      (simp append_assoc)

pub cons_head : (a b : ℕ) (s t : List ℕ) → ◌≡◌ {A = List ℕ} (a ∷ s) (b ∷ t) → (a ≡ b) × (s ≡ t)
cons_head a b s t h = (cc, cc)

pub no_cons : (a : ℕ) (s : List ℕ) → ◌≡◌ {A = List ℕ} [] (a ∷ s) → ⊥
no_cons a s h = cc

Copies-text :
    (a front rest b written : Bytes) (p : ℕ) (ps : List ℕ) (t : Tag) (tags : List Tag) (end : ℕ)
    → a ≡ front ++ placeholder ∷ rest
    → length front ≡ p
    → LacksByte placeholder rest
    → length ps ≡ holes front
    → length ps ≤ length tags
    → t.name_len ≡ length (or_default t.name [])
    → end - (length front + 1) ≡ length rest
    → Copies front
        (placeholder ∷ (rest ++ b))
        (or_default t.name [] ++ (rest ++ written))
        ps
        tags
        (length front)
        (length (fill front (names_back (length ps) tags)))
    → Copies a b written
        (p ∷ ps)
        (t ∷ tags)
        end
        (length (fill a (names_back (length (p ∷ ps)) (t ∷ tags))))
Copies-text a front rest b written p ps t tags end e q plain k l m f ih =
    rw (e, ← q) (Copies-last front rest b written ps t tags end plain k l m f ih)

pub plain-places : (a : Bytes) → LacksByte placeholder a → places_from 0 a [] ≡ []
plain-places a h = places-plain a 0 [] h

pub places-holes : (a : Bytes) (ps : List ℕ) → places_from 0 a [] ≡ ps → length ps ≡ holes a
places-holes a ps h = let k = length-places a 0 [] in let e = ap length h in omega (arith, k, e)

pub Copies-loop :
    (ps : List ℕ) (a b written : Bytes) (tags : List Tag)
    → places_from 0 a [] ≡ ps
    → length ps ≤ length tags
    → AreMeasured tags
    → Copies a b written ps tags (length a) (length (fill a (names_back (length ps) tags)))
Copies-loop [] a b written tags p l m = elim (last_hole a) [
  | inl plain ↦ Copies-plain a b written tags (length a) plain
  | inr h ↦
      absurd (no_cons (0 + length h.front) (places_from 0 h.front []) (sym p ∙ h.offsets 0 []))
]
Copies-loop (p ∷ ps) a b written [] e l m = absurd (omega (arith, l))
Copies-loop (p ∷ ps) a b written (t ∷ tags) e l (m, ms) = elim (last_hole a) [
  | inl plain ↦ absurd (no_cons p ps (sym (plain-places a plain) ∙ e))
  | inr h ↦
      let (q, qs) =
        cons_head (0 + length h.front) p (places_from 0 h.front []) ps (sym (h.offsets 0 []) ∙ e) in
      let q' : length h.front ≡ p = omega (arith, q) in
      Copies-text a h.front h.rest b written p ps t tags (length a) h.text q' h.plain
        (places-holes h.front ps qs) (omega (arith, l)) m
        (ap (λ (x : Bytes). length x - (length h.front + 1)) h.text ∙ front_end h.front h.rest)
        (Copies-loop ps h.front (placeholder ∷ (h.rest ++ b))
          (or_default t.name [] ++ (h.rest ++ written)) tags qs (omega (arith, l)) ms)
]
