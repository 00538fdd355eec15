-- ===== src/Tags/Members.antt =====
-- The names that a list of tags holds: lcfgtaglist_contains of resources/tags/list.c, and what the
-- loop of the set operations leaves in its result.
use lcfg_core.Common.{
  ℕ, ◌≡◌, refl, sym, ap, ◌∙◌, Bool, true, false, ◌&&◌, ◌||◌, Option, none, some, List, [], ◌∷◌,
  ◌++◌, Bytes, is_empty, or_default, strcmp, is_zero, length, take, ◌==◌, arith, Bool-cases, inl,
  inr,
}
use lcfg_core.Package.Version.Segments.{IsText}
use lcfg_core.PackageList.Keys.{strcmp_zero}
use lcfg_core.Tags.{
  Tag, TagList, TagHeap, acquire, is_valid, match, same_bytes, find_from, find_tag, contains, given,
}

-- The name of a tag holds no NUL, and its length is recorded.
pub record IsNamed (t : Tag) : Type 0 where
  pub text : IsText (or_default t.name [])
  pub len : t.name_len ≡ length (or_default t.name [])

-- A name that a tag can have.
pub record IsName (n : Bytes) : Type 0 where
  pub text : IsText n
  pub filled : is_empty (some n) ≡ false

-- Whether one of the tags has a name.
unfoldable pub has : TagHeap → List ℕ → Bytes → Bool
has h [] n = false
has h (p ∷ ps) n = match (h.tag p) n || has h ps n

has-find_from : (h : TagHeap) (ps : List ℕ) (n : Bytes) → given (find_from h ps n) ≡ has h ps n
unfolding find_from has
has-find_from h [] n = refl
has-find_from h (p ∷ ps) n = elim (Bool-cases (match (h.tag p) n)) [
  | inl e ↦ rw e refl
  | inr e ↦ rw e (has-find_from h ps n)
]

has_nothing : (h : TagHeap) (ps : List ℕ) (n : Bytes) → length ps ≡ 0 → has h ps n ≡ false
unfolding has
has_nothing h [] n e = refl
has_nothing h (p ∷ ps) n e = ground (arith, e)

pub contains-has :
    (h : TagHeap) (list : TagList) (n : Bytes)
    → list.size ≡ length list.tags
    → contains h list n ≡ has h list.tags n
unfolding contains find_tag
contains-has h list n sized = elim (Bool-cases (list.size == 0)) [
  | inl e ↦ rw e (sym (has_nothing h list.tags n (ground (arith, e, sized))))
  | inr e ↦ rw e (has-find_from h list.tags n)
]

pub has-append :
    (h : TagHeap) (ps : List ℕ) (p : ℕ) (n : Bytes)
    → has h (ps ++ (p ∷ [])) n ≡ (has h ps n || match (h.tag p) n)
unfolding has
has-append h [] p n = ground arith
has-append h (q ∷ ps) p n = ground (arith, has-append h ps p n)

pub match-acquire :
    (h : TagHeap) (p q : ℕ) (n : Bytes) → match ((acquire h p).tag q) n ≡ match (h.tag q) n
unfolding match acquire
match-acquire h p q n = elim (Bool-cases (q == p)) [
  | inl e ↦ (let same : q ≡ p = ground (arith, e) in rw (e, same) refl)
  | inr e ↦ rw e refl
]

pub has-acquire :
    (h : TagHeap) (p : ℕ) (ps : List ℕ) (n : Bytes) → has (acquire h p) ps n ≡ has h ps n
unfolding has
has-acquire h p [] n = refl
has-acquire h p (q ∷ ps) n = rw (match-acquire h p q n, has-acquire h p ps n) refl

pub IsNamed-acquire :
    (h : TagHeap) (p : ℕ) → ((q : ℕ) → IsNamed (h.tag q)) → (q : ℕ) → IsNamed ((acquire h p).tag q)
unfolding acquire
IsNamed-acquire h p named q = elim (Bool-cases (q == p)) [
  | inl e ↦ rw e (record { text = (named p).text; len = (named p).len })
  | inr e ↦ rw e (named q)
]

take-length : (s : Bytes) → take (length s) s ≡ s
take-length [] = refl
take-length (c ∷ s) = ap (λ t. c ∷ t) (take-length s)

and_right : (a b : Bool) → a && b ≡ true → b ≡ true
and_right true b h = h
and_right false true h = refl
and_right false false h = h

-- A tag matches its own name only.
pub match-eq :
    (t : Tag) (n : Bytes) → IsNamed t → IsText n → match t n ≡ true → n ≡ or_default t.name []
unfolding match same_bytes
match-eq t n named text h =
    let s = or_default t.name [] in
    let same : is_zero (strcmp (take t.name_len s) n) ≡ true =
      and_right (length n == t.name_len) (is_zero (strcmp (take t.name_len s) n)) h in
    let whole : take t.name_len s ≡ s = rw named.len (take-length s) in
    sym (strcmp_zero s n named.text text (ap (λ u. is_zero (strcmp u n)) (sym whole) ∙ same))

is_empty-or_default : (x : Option Bytes) → is_empty (some (or_default x [])) ≡ is_empty x
is_empty-or_default none = refl
is_empty-or_default (some []) = refl
is_empty-or_default (some (c ∷ s)) = refl

-- An invalid tag has no name.
pub match-invalid :
    (t : Tag) (n : Bytes) → IsNamed t → IsName n → is_valid t ≡ false → match t n ≡ false
unfolding is_valid
match-invalid t n named name h = elim (Bool-cases (match t n)) [
  | inl e ↦
      let same = match-eq t n named name.text e in
      let empty : is_empty (some n) ≡ is_empty t.name =
        ap (λ s. is_empty (some s)) same ∙ is_empty-or_default t.name in
      ground (arith, h, name.filled, empty)
  | inr e ↦ e
]
