-- ===== src/Resource/Located.antt =====
-- The words and the bytes of a value around a tag that is located: resources/mutate.c.
use mathlib.Core.List.{append_assoc}
use lcfg_core.Common.{
  ℕ, ◌≡◌, refl, sym, ap, ◌∙◌, Bool, true, not, some, List, [], ◌∷◌, ◌++◌, Bytes, all_bytes,
  is_empty, or_default, length, drop, ◌==◌, if◌then◌else◌, arith, Bool-cases, inl, inr, starts_with,
  rejoin, words, add_word,
}
use lcfg_core.Utils.{is_start, is_end}
use lcfg_core.Utils.Scan.{and_left, and_right, IsItem}
use lcfg_core.Utils.Words.{append_nil, words-cut, words_single}
use lcfg_core.Resource.Mutate.{allowed_separators, skip_separators}
use lcfg_core.Resource.Tags.{is_sep, all_bytes-append}

rejoin-append : (p x : Bytes) → rejoin p x ≡ rejoin p [] ++ x
unfolding rejoin
rejoin-append [] x = refl
rejoin-append (c ∷ p) x =
    rejoin-append p (c ∷ x)
    ∙ (sym (append_assoc (rejoin p []) (c ∷ []) x) ∙ rw (← rejoin-append p (c ∷ [])) refl)

-- The words in front of an item and from it on.
pub start-words :
    (p : Bytes)
    → is_start allowed_separators p ≡ true
    → (ws : List Bytes) × ((x : Bytes) → words is_sep (rejoin p x) ≡ ws ++ words is_sep x)
unfolding is_start rejoin
start-words [] h = ([], λ x. refl)
start-words (c ∷ p) h = (
  words is_sep (rejoin p []),
  λ x. ap (words is_sep) (rejoin-append p (c ∷ x)) ∙ words-cut is_sep (rejoin p []) x c h,
)

words_empty : words is_sep [] ≡ []
unfolding words
words_empty = refl

words_after : (c : ℕ) (t : Bytes) → is_sep c ≡ true → words is_sep (c ∷ t) ≡ words is_sep t
words_after c t h = words-cut is_sep [] t c h ∙ rw words_empty refl

words_item : (w : Bytes) → IsItem allowed_separators w → words is_sep w ≡ w ∷ []
words_item [] h = absurd h
words_item (c ∷ w) h = words_single is_sep c w h

pub end-words :
    (w after : Bytes)
    → IsItem allowed_separators w
    → is_end allowed_separators after ≡ true
    → words is_sep (w ++ after) ≡ w ∷ words is_sep after
unfolding is_end
end-words w [] item h = rw (append_nil w, words_item w item, words_empty) refl
end-words w (c ∷ t) item h =
    words-cut is_sep w t c h ∙ rw (words_item w item, words_after c t h) refl

skip-words : (s : Bytes) → words is_sep (skip_separators s) ≡ words is_sep s
unfolding skip_separators
skip-words [] = refl
skip-words (c ∷ s) = elim (Bool-cases (is_sep c)) [
  | inl e ↦ rw e (skip-words s ∙ sym (words_after c s e))
  | inr e ↦ rw e refl
]

-- The text that is put in place of the old tag and what follows it.
abbrev pub put : Bytes → Bytes → Bytes
put new after =
    if is_empty (some new) then skip_separators after else or_default (some new) [] ++ after

pub put-words :
    (new after : Bytes)
    → all_bytes (λ c. not (is_sep c)) new ≡ true
    → is_end allowed_separators after ≡ true
    → words is_sep (put new after) ≡ add_word new (words is_sep after)
put-words [] after h k = skip-words after
put-words (c ∷ w) after h k = end-words (c ∷ w) after h k

pub starts_with-append : (w s : Bytes) → starts_with w s ≡ true → s ≡ w ++ drop (length w) s
unfolding starts_with
starts_with-append [] s h = refl
starts_with-append (d ∷ w) [] h = cc
starts_with-append (d ∷ w) (c ∷ s) h =
    let q : c ≡ d = ground (arith, and_left (d == c) (starts_with w s) h) in
    rw q
      (ap (λ (x : Bytes). d ∷ x) (starts_with-append w s (and_right (d == c) (starts_with w s) h)))

-- The bytes of a list value.
pub rejoin_left :
    (f : ℕ → Bool) (p x : Bytes) → all_bytes f (rejoin p x) ≡ true → all_bytes f x ≡ true
unfolding rejoin
rejoin_left f [] x h = h
rejoin_left f (c ∷ p) x h = and_right (f c) (all_bytes f x) (rejoin_left f p (c ∷ x) h)

pub rejoin_swap :
    (f : ℕ → Bool) (p x y : Bytes)
    → all_bytes f (rejoin p x) ≡ true
    → all_bytes f y ≡ true
    → all_bytes f (rejoin p y) ≡ true
unfolding rejoin
rejoin_swap f [] x y h k = k
rejoin_swap f (c ∷ p) x y h k =
    rejoin_swap f p (c ∷ x) (c ∷ y) h
      (rw (and_left (f c) (all_bytes f x) (rejoin_left f p (c ∷ x) h)) k)

pub drop_bytes :
    (f : ℕ → Bool) (w s : Bytes) → all_bytes f s ≡ true → all_bytes f (drop (length w) s) ≡ true
drop_bytes f [] s h = h
drop_bytes f (d ∷ w) [] h = refl
drop_bytes f (d ∷ w) (c ∷ s) h = drop_bytes f w s (and_right (f c) (all_bytes f s) h)

skip_bytes :
    (f : ℕ → Bool) (s : Bytes) → all_bytes f s ≡ true → all_bytes f (skip_separators s) ≡ true
unfolding skip_separators
skip_bytes f [] h = refl
skip_bytes f (c ∷ s) h = elim (Bool-cases (is_sep c)) [
  | inl e ↦ rw e (skip_bytes f s (and_right (f c) (all_bytes f s) h))
  | inr e ↦ rw e h
]

pub put_bytes :
    (f : ℕ → Bool) (new after : Bytes)
    → all_bytes f new ≡ true
    → all_bytes f after ≡ true
    → all_bytes f (put new after) ≡ true
put_bytes f [] after h k = skip_bytes f after k
put_bytes f (c ∷ w) after h k = all_bytes-append f (c ∷ w) after h k
