-- ===== src/Utils/Items.antt =====
-- The search of lcfgutils_string_finditem and the words of the text: utils/utils.c.
use lcfg_core.Common.{
  ℕ, zero, suc, ◌+◌, ◌<◌, ◌≤◌, ◌≡◌, refl, ap, ◌∙◌, Bool, true, false, ◌&&◌, ◌||◌, Option, none,
  some, [], ◌∷◌, Bytes, CString, or_default, length, drop, ◌==◌, arith, Bool-cases, Option-cases,
  inl, inr, starts_with, Position, strstr, member, head_word, tail_words, words,
}
use lcfg_core.Utils.{
  advance, is_start, is_end, check_item, behind, find_loop, finditem, given, hasitem,
}
use lcfg_core.Utils.Scan.{
  and_left, and_right, is_separator, IsItem, Lacks, lacks_head, lacks_tail, scan, scan-member,
}

module _ (separator : Bytes) where
  scan-step :
      (needle : Bytes) (c : ℕ) (s : Bytes)
      → scan separator needle false (c ∷ s) ≡ scan separator needle ((is_separator separator) c) s
  unfolding scan
  scan-step needle c s = refl

  -- Behind a byte that is no separator, the rest of the item is skipped.
  scan-skip :
      (needle u p s : Bytes)
      → starts_with u s ≡ true
      → Lacks separator u
      → is_start separator p ≡ false
      → scan separator needle false s
        ≡ scan separator needle
            (is_start separator (advance (length u) (p, s)).0)
            (advance (length u) (p, s)).1
  unfolding starts_with advance is_start
  scan-skip needle [] p s h k start = rw start refl
  scan-skip needle (d ∷ u) p [] h k start = ground (arith, h)
  scan-skip needle (d ∷ u) p (c ∷ s) h k start =
      let q : d ≡ c = ground (arith, and_left (d == c) (starts_with u s) h) in
      let plain = lacks_head separator d u k in
      rw (← q) (
        scan-step needle d s
        ∙ rw plain (
            scan-skip needle u (d ∷ p) s (and_right (d == c) (starts_with u s) h)
              (lacks_tail separator d u k) plain))

  scan-no : (ok : Bool) {b : Bool} → b ≡ false → (ok && false || b) ≡ false
  scan-no true h = h
  scan-no false h = h

  -- A search of `strstr` that finds nothing, or a position that is further on.
  strstr-none :
      (needle p s : Bytes) (ok : Bool)
      → strstr needle p s ≡ none
      → scan separator needle ok s ≡ false
  unfolding strstr scan
  strstr-none needle p [] ok h = refl
  strstr-none needle p (c ∷ s) ok h = elim (Bool-cases (starts_with needle (c ∷ s))) [
    | inl e ↦ let bad = rw e at h in cc
    | inr e ↦
        let h' = rw e at h in
        rw e (scan-no (ok) (strstr-none needle (c ∷ p) s ((is_separator separator) c) h'))
  ]

  scan-later : (ok : Bool) {b : Bool} → (ok && false || b) ≡ b
  scan-later true = refl
  scan-later false = refl

  record Found (needle p s p' s' : Bytes) : Type 0 where
    starts : starts_with needle s' ≡ true
    scans :
        scan separator needle (is_start separator p) s
        ≡ scan separator needle (is_start separator p') s'
    shorter : length s' ≤ length s

  some_pair :
      (a b c d : Bytes) → ◌≡◌ {A = Option Position} (some (a, b)) (some (c, d)) → (a ≡ c) × (b ≡ d)
  some_pair a b c d h = (cc, cc)

  same-Found :
      (needle p s p' s' : Bytes)
      → starts_with needle s ≡ true
      → ◌≡◌ {A = Option Position} (some (p, s)) (some (p', s'))
      → Found needle p s p' s'
  same-Found needle p s p' s' e h =
      let (ep, es) = some_pair p s p' s' h in
      record { starts = rw (← es) e; scans = rw (ep, es) refl; shorter = rw es (omega arith) }

  later-Found :
      (needle p : Bytes) (c : ℕ) (s p' s' : Bytes)
      → starts_with needle (c ∷ s) ≡ false
      → Found needle (c ∷ p) s p' s'
      → Found needle p (c ∷ s) p' s'
  unfolding scan is_start
  later-Found needle p c s p' s' e f = record {
    starts = f.starts;
    scans = rw e (scan-later (is_start separator p) ∙ f.scans);
    shorter = let k = f.shorter in omega (arith, k);
  }

  strstr-some :
      (needle p s p' s' : Bytes) → strstr needle p s ≡ some (p', s') → Found needle p s p' s'
  unfolding strstr scan is_start
  strstr-some needle p [] p' s' h = elim (Bool-cases (starts_with needle [])) [
    | inl e ↦ same-Found needle p [] p' s' e (rw e at h)
    | inr e ↦ let bad = rw e at h in cc
  ]
  strstr-some needle p (c ∷ s) p' s' h = elim (Bool-cases (starts_with needle (c ∷ s))) [
    | inl e ↦ same-Found needle p (c ∷ s) p' s' e (rw e at h)
    | inr e ↦ later-Found needle p c s p' s' e (strstr-some needle (c ∷ p) s p' s' (rw e at h))
  ]

  is_first :
      (needle : Bytes) (s : Bytes) (ok : Bool)
      → IsItem separator needle
      → starts_with needle s ≡ true
      → scan separator needle ok s
        ≡ ((ok && is_end separator (drop (length needle) s)) || scan separator needle false s)
  unfolding scan starts_with
  is_first [] s ok h k = absurd h
  is_first (d ∷ u) [] ok h k = ground (arith, k)
  is_first (d ∷ u) (c ∷ s) true h k = rw k refl
  is_first (d ∷ u) (c ∷ s) false h k = refl

  start_cons : (c : ℕ) (p : Bytes) → is_start separator (c ∷ p) ≡ (is_separator separator) c
  unfolding is_start
  start_cons c p = refl

  -- At a match, the scan separator either ends or goes on behind it.
  scan-match :
      (needle p s : Bytes)
      → IsItem separator needle
      → starts_with needle s ≡ true
      → scan separator needle (is_start separator p) s ≡ (
          (is_start separator p && is_end separator (drop (length needle) s))
          || scan separator needle
              (is_start separator (advance (length needle) (p, s)).0)
              (advance (length needle) (p, s)).1)
  unfolding starts_with advance
  scan-match [] p s h k = absurd h
  scan-match (d ∷ u) p [] h k = ground (arith, k)
  scan-match (d ∷ u) p (c ∷ s) h k =
      let q : d ≡ c = ground (arith, and_left (d == c) (starts_with u s) k) in
      let plain = lacks_head separator d u h in
      let plain' : (is_separator separator) c ≡ false = rw (← q) plain in
      let skip =
        scan-skip (d ∷ u) u (c ∷ p) s (and_right (d == c) (starts_with u s) k)
          (lacks_tail separator d u h) (start_cons c p ∙ rw (← q) plain) in
      is_first (d ∷ u) (c ∷ s) (is_start separator p) h k
      ∙ ap
          (λ (b : Bool).
            (is_start separator p && is_end separator (drop (length (d ∷ u)) (c ∷ s))) || b)
          (scan-step (d ∷ u) c s ∙ ap (λ (b : Bool). scan separator (d ∷ u) b s) plain' ∙ skip)

  advance-shorter : (n : ℕ) (p s : Bytes) → length (advance n (p, s)).1 ≤ length s
  unfolding advance
  advance-shorter zero p s = omega arith
  advance-shorter (suc n) p [] = omega arith
  advance-shorter (suc n) p (c ∷ s) = omega (arith, advance-shorter n (c ∷ p) s)

  match-shorter :
      (needle p s : Bytes)
      → IsItem separator needle
      → starts_with needle s ≡ true
      → length (advance (length needle) (p, s)).1 < length s
  unfolding advance starts_with
  match-shorter [] p s h k = absurd h
  match-shorter (d ∷ u) p [] h k = ground (arith, k)
  match-shorter (d ∷ u) p (c ∷ s) h k = omega (arith, advance-shorter (length u) (c ∷ p) s)

  given-check_item :
      (needle p s : Bytes) (later : Option Position)
      → given (check_item needle separator (some (p, s)) later)
        ≡ ((is_start separator p && is_end separator (drop (length needle) s)) || given later)
  unfolding check_item
  given-check_item needle p s later =
      elim (Bool-cases (is_start separator p && is_end separator (drop (length needle) s))) [
        | inl e ↦ rw e refl
        | inr e ↦ rw e refl
      ]

  find_loop-scan :
      (fuel : ℕ) (needle p s : Bytes)
      → IsItem separator needle
      → length s < fuel
      → given (find_loop fuel needle separator (p, s))
        ≡ scan separator needle (is_start separator p) s
  unfolding find_loop behind
  find_loop-scan zero needle p s h k = absurd (omega arith)
  find_loop-scan (suc fuel) needle p s h k = elim (Option-cases (strstr needle p s)) [
    | inl e ↦ rw (e, strstr-none needle p s (is_start separator p) e) refl
    | inr ((p', s'), e) ↦
        let f = strstr-some needle p s p' s' e in
        let m = match-shorter needle p' s' h f.starts in
        let short = f.shorter in
        rw (e, f.scans, scan-match needle p' s' h f.starts)
          (given-check_item needle p' s'
              (find_loop fuel needle separator (advance (length needle) (p', s')))
            ∙ ap
                (λ (b : Bool).
                  (is_start separator p' && is_end separator (drop (length needle) s')) || b)
                (find_loop-scan fuel needle (advance (length needle) (p', s')).0
                  (advance (length needle) (p', s')).1 h (omega (arith, m, short))))
  ]

  find_all :
      (needle s : Bytes)
      → IsItem separator needle
      → given (find_loop (length s + 1) needle separator ([], s))
        ≡ member needle (words (is_separator separator) s)
  unfolding is_start
  find_all needle s h =
      find_loop-scan (length s + 1) needle [] s h (omega arith) ∙ scan-member separator needle s h

-- An item is found in a text exactly if it is one of the words between separators: for a needle
-- that is not empty and holds no separator, where there is a separator.
pub hasitem-member :
    (haystack : CString) (needle : Bytes) (c : ℕ) (separator : Bytes)
    → IsItem (c ∷ separator) needle
    → hasitem haystack needle (c ∷ separator)
      ≡ member needle (words (is_separator (c ∷ separator)) (or_default haystack []))
unfolding hasitem finditem words head_word tail_words member
hasitem-member none needle c separator h = refl
hasitem-member (some []) needle c separator h = refl
hasitem-member (some (d ∷ s)) needle c separator h = find_all (c ∷ separator) needle (d ∷ s) h
