-- ===== src/Templates/Filled.antt =====
-- Substitution compared with a template that is filled from left to right: resources/templates.c.
use mathlib.Core.List.{append_assoc}
use lcfg_core.Common.{
  ℕ, zero, suc, ◌+◌, ◌≤◌, ◌≡◌, refl, sym, ap, ◌∙◌, ◌⊎◌, true, List, [], ◌∷◌, ◌++◌, Bytes,
  or_default, length, length-append, take, drop, ◌==◌, if◌then◌else◌, arith, Bool-cases, inl, inr,
}
use lcfg_core.Resource.KeyParts.{LacksByte, lacks_first, lacks_rest}
use lcfg_core.Tags.{Tag}
use lcfg_core.Templates.{placeholder, places_from}

-- The placeholders are replaced by the names, from left to right.
unfoldable pub fill : Bytes → List Bytes → Bytes
fill [] ns = []
fill (c ∷ s) [] = c ∷ s
fill (c ∷ s) (n ∷ ns) = if c == placeholder then n ++ fill s ns else c ∷ fill s (n ∷ ns)

-- The number of placeholders.
unfoldable pub holes : Bytes → ℕ
holes [] = 0
holes (c ∷ s) = (if c == placeholder then 1 else 0) + holes s

pub fill-none : (s : Bytes) → fill s [] ≡ s
unfolding fill
fill-none [] = refl
fill-none (c ∷ s) = refl

fill-append :
    (s t : Bytes) (ns us : List Bytes)
    → length ns ≡ holes s
    → fill (s ++ t) (ns ++ us) ≡ fill s ns ++ fill t us
unfolding fill holes
fill-append [] t [] us h = refl
fill-append [] t (n ∷ ns) us h = absurd (omega (arith, h))
fill-append (c ∷ s) t [] [] h = rw (fill-none t) refl
fill-append (c ∷ s) t [] (u ∷ us) h = elim (Bool-cases (c == placeholder)) [
  | inl e ↦ let h' = rw e at h in absurd (omega (arith, h'))
  | inr e ↦
      let h' = rw e at h in
      let k : 0 ≡ holes s = omega (arith, h') in
      rw e (ap (λ (x : Bytes). c ∷ x) (fill-append s t [] (u ∷ us) k ∙ rw (fill-none s) refl))
]
fill-append (c ∷ s) t (n ∷ ns) us h = elim (Bool-cases (c == placeholder)) [
  | inl e ↦
      let h' = rw e at h in
      let k : length ns ≡ holes s = omega (arith, h') in
      rw (e, fill-append s t ns us k) (sym (append_assoc n (fill s ns) (fill t us)))
  | inr e ↦
      let h' = rw e at h in
      let k : length (n ∷ ns) ≡ holes s = omega (arith, h') in
      rw e (ap (λ (x : Bytes). c ∷ x) (fill-append s t (n ∷ ns) us k))
]

-- The template, up to its last placeholder and behind it, and the offsets of the placeholders.
pub record LastHole (a : Bytes) : Type 0 where
  pub front : Bytes
  pub rest : Bytes
  pub text : a ≡ front ++ placeholder ∷ rest
  pub plain : LacksByte placeholder rest
  pub offsets :
      (i : ℕ) (later : List ℕ)
      → places_from i a later ≡ (i + length front) ∷ places_from i front later

pub places-plain :
    (s : Bytes) (i : ℕ) (later : List ℕ) → LacksByte placeholder s → places_from i s later ≡ later
unfolding places_from
places-plain [] i later h = refl
places-plain (c ∷ s) i later h =
    rw (lacks_first placeholder c s h) (places-plain s (i + 1) later (lacks_rest placeholder c s h))

first_hole :
    (c : ℕ) (a : Bytes) → c == placeholder ≡ true → LacksByte placeholder a → LastHole (c ∷ a)
unfolding places_from
first_hole c a e h =
    let q : c ≡ placeholder = ground (arith, e) in
    record {
      front = [];
      rest = a;
      text = rw q refl;
      plain = h;
      offsets = λ i later.
          rw (e, places-plain a (i + 1) (i ∷ later) h) (ap (λ (x : ℕ). x ∷ later) (omega arith));
    }

later_hole : (c : ℕ) (a : Bytes) → LastHole a → LastHole (c ∷ a)
unfolding places_from
later_hole c a l = record {
  front = c ∷ l.front;
  rest = l.rest;
  text = ap (λ (x : Bytes). c ∷ x) l.text;
  plain = l.plain;
  offsets = λ i later.
      l.offsets (i + 1) (if c == placeholder then i ∷ later else later)
      ∙ ap
          (λ (x : ℕ).
            x ∷ places_from (i + 1) l.front (if c == placeholder then i ∷ later else later))
          (omega arith);
}

pub last_hole : (a : Bytes) → LacksByte placeholder a ⊎ LastHole a
last_hole [] = inl refl
last_hole (c ∷ a) = elim (last_hole a) [
  | inr l ↦ inr (later_hole c a l)
  | inl h ↦ elim (Bool-cases (c == placeholder)) [
    | inl e ↦ inr (first_hole c a e h)
    | inr e ↦ inl (rw e h)
  ]
]

holes-append : (s t : Bytes) → holes (s ++ t) ≡ holes s + holes t
unfolding holes
holes-append [] t = omega arith
holes-append (c ∷ s) t = omega (arith, holes-append s t)

holes-plain : (s : Bytes) → LacksByte placeholder s → holes s ≡ 0
unfolding holes
holes-plain [] h = refl
holes-plain (c ∷ s) h =
    let k = holes-plain s (lacks_rest placeholder c s h) in
    rw (lacks_first placeholder c s h) (omega (arith, k))

pub fill-plain : (s : Bytes) (ns : List Bytes) → LacksByte placeholder s → fill s ns ≡ s
unfolding fill
fill-plain [] ns h = refl
fill-plain (c ∷ s) [] h = refl
fill-plain (c ∷ s) (n ∷ ns) h =
    rw (lacks_first placeholder c s h)
      (ap (λ (x : Bytes). c ∷ x) (fill-plain s (n ∷ ns) (lacks_rest placeholder c s h)))

-- The last placeholder is replaced by the last name.
pub fill-last :
    (front rest n : Bytes) (ns : List Bytes)
    → LacksByte placeholder rest
    → length ns ≡ holes front
    → fill (front ++ placeholder ∷ rest) (ns ++ n ∷ []) ≡ fill front ns ++ (n ++ rest)
unfolding fill
fill-last front rest n ns h k =
    fill-append front (placeholder ∷ rest) ns (n ∷ []) k ∙ rw (fill-none rest) refl

shift : (n : ℕ) → suc n + 1 ≡ suc (n + 1)
shift n = omega arith

-- The names of tags, the last tag first.
abbrev pub names_back : ℕ → List Tag → List Bytes
names_back zero tags = []
names_back (suc k) [] = []
names_back (suc k) (t ∷ tags) = names_back k tags ++ (or_default t.name [] ∷ [])

-- The lengths of the names are recorded.
abbrev pub AreMeasured : List Tag → Type 0
AreMeasured [] = Unit
AreMeasured (t ∷ tags) = (t.name_len ≡ length (or_default t.name [])) × AreMeasured tags

pub length-names_back : (k : ℕ) (tags : List Tag) → k ≤ length tags → length (names_back k tags) ≡ k
length-names_back zero tags h = refl
length-names_back (suc k) [] h = absurd (omega (arith, h))
length-names_back (suc k) (t ∷ tags) h =
    length-append (names_back k tags) (or_default t.name [] ∷ [])
    ∙ omega (arith, h, length-names_back k tags)

pub take_all : (s t : Bytes) → take (length s) (s ++ t) ≡ s
take_all [] t = refl
take_all (c ∷ s) t = ap (λ (x : Bytes). c ∷ x) (take_all s t)

pub take_whole : (s : Bytes) → take (length s) s ≡ s
take_whole [] = refl
take_whole (c ∷ s) = ap (λ (x : Bytes). c ∷ x) (take_whole s)

drop_all : (s t : Bytes) → drop (length s) (s ++ t) ≡ t
drop_all [] t = refl
drop_all (c ∷ s) t = drop_all s t

pub drop_more : (s : Bytes) (c : ℕ) (t : Bytes) → drop (length s + 1) (s ++ c ∷ t) ≡ t
drop_more [] c t = refl
drop_more (d ∷ s) c t = rw (shift (length s)) (drop_more s c t)
