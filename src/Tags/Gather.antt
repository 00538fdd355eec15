-- ===== src/Tags/Gather.antt =====
-- The loop of the set operations in resources/tags/list.c: the names that it leaves in its result.
use lcfg_core.Common.{
  ℕ, ◌+◌, ◌%◌, ◌<◌, ◌≤◌, ◌≡◌, refl, ◌∙◌, Bool, true, false, not, ◌&&◌, ◌||◌, List, [], ◌∷◌, ◌++◌,
  Bytes, or_default, length, length-append, Change, change_ok, change_added, arith, Bool-cases, inl,
  inr,
}
use lcfg_core.Derivation.{u32}
use lcfg_core.Tags.{TagList, TagHeap, acquire, is_valid, match, contains, append_tag}
use lcfg_core.Tags.Sets.{gather}
use lcfg_core.Tags.Members.{
  IsNamed, IsName, has, contains-has, has-append, has-acquire, IsNamed-acquire, match-eq,
  match-invalid,
}

-- What the loop leaves: the names of the result before, and the wanted names of the tags. It does
-- not fail, and it changes no name.
pub record Gathered (wanted : TagHeap → Bytes → Bool) (h : TagHeap) (ps : List ℕ) (result : TagList)
    (n : Bytes) (r : (TagHeap × TagList) × Change) : Type 0 where
  pub members : has r.0.0 r.0.1.tags n ≡ (has h result.tags n || (wanted h n && has h ps n))
  pub ok : change_ok r.1 ≡ true
  pub sized : r.0.1.size ≡ length r.0.1.tags
  pub short : length r.0.1.tags ≤ length result.tags + length ps
  pub named : (q : ℕ) → IsNamed (r.0.0.tag q)
  pub same : (qs : List ℕ) → has r.0.0 qs n ≡ has h qs n

module _ (wanted : TagHeap → Bytes → Bool)
    (stable : (h : TagHeap) (p : ℕ) (n : Bytes) → wanted (acquire h p) n ≡ wanted h n) where
  -- The test of the loop on one tag.
  abbrev pub passes : TagHeap → ℕ → TagList → Bool
  passes h p result =
      is_valid (h.tag p)
      && (wanted h (or_default (h.tag p).name [])
          && not (contains h result (or_default (h.tag p).name [])))

  module _ (h : TagHeap) (p : ℕ) (result : TagList) (n : Bytes)
      (named : (q : ℕ) → IsNamed (h.tag q)) (name : IsName n) where
    -- A tag that passes and has the name is wanted by that name.
    passes-wanted : passes h p result ≡ true → match (h.tag p) n ≡ true → wanted h n ≡ true
    passes-wanted e m =
        let same = match-eq (h.tag p) n (named p) name.text m in rw same (ground (arith, e))

    -- A tag that does not pass and has the name is not wanted, or it has been met.
    passes-skipped :
        result.size ≡ length result.tags
        → passes h p result ≡ false
        → match (h.tag p) n ≡ true
        → (has h result.tags n || not (wanted h n)) ≡ true
    passes-skipped sized e m =
        let same = match-eq (h.tag p) n (named p) name.text m in
        let valid = match-invalid (h.tag p) n (named p) name in
        let met = contains-has h result n sized in
        let e' : (is_valid (h.tag p) && (wanted h n && not (contains h result n))) ≡ false =
          rw same e in
        ground (arith, e', m, valid, met)

  Gathered-last :
      (h : TagHeap) (result : TagList) (change : Change) (n : Bytes)
      → change_ok change ≡ true
      → ((q : ℕ) → IsNamed (h.tag q))
      → result.size ≡ length result.tags
      → Gathered wanted h [] result n ((h, result), change)
  unfolding has
  Gathered-last h result change n ok named sized = record {
    members = ground arith;
    ok = ok;
    sized = sized;
    short = omega arith;
    named = named;
    same = λ qs. refl;
  }

  -- The result with one more tag.
  abbrev pub with_tag : TagList → ℕ → TagList
  with_tag result p = record result {
    tags = result.tags ++ (p ∷ []);
    size = (result.size + 1) % u32;
  }

  append_tag-valid :
      (h : TagHeap) (result : TagList) (p : ℕ)
      → is_valid (h.tag p) ≡ true
      → append_tag h result p ≡ ((acquire h p, with_tag result p), change_added)
  unfolding append_tag
  append_tag-valid h result p v = rw v refl

  Gathered-added :
      (h : TagHeap) (p : ℕ) (ps : List ℕ) (result : TagList) (n : Bytes)
      (r : (TagHeap × TagList) × Change)
      → (match (h.tag p) n ≡ true → wanted h n ≡ true)
      → Gathered wanted (acquire h p) ps (with_tag result p) n r
      → Gathered wanted h (p ∷ ps) result n r
  unfolding has
  Gathered-added h p ps result n r want g = record {
    members =
        g.members
        ∙ rw
            (
              has-acquire h p (result.tags ++ (p ∷ [])) n,
              has-append h result.tags p n,
              stable h p n,
              has-acquire h p ps n,
            )
            (ground (arith, want));
    ok = g.ok;
    sized = g.sized;
    short = omega (arith, g.short, length-append result.tags (p ∷ []));
    named = g.named;
    same = λ qs. g.same qs ∙ has-acquire h p qs n;
  }

  Gathered-skipped :
      (h : TagHeap) (p : ℕ) (ps : List ℕ) (result : TagList) (n : Bytes)
      (r : (TagHeap × TagList) × Change)
      → (match (h.tag p) n ≡ true → (has h result.tags n || not (wanted h n)) ≡ true)
      → Gathered wanted h ps result n r
      → Gathered wanted h (p ∷ ps) result n r
  unfolding has
  Gathered-skipped h p ps result n r skip g = record {
    members = g.members ∙ ground (arith, skip);
    ok = g.ok;
    sized = g.sized;
    short = omega (arith, g.short);
    named = g.named;
    same = g.same;
  }

  pub gather-Gathered :
      (h : TagHeap) (ps : List ℕ) (result : TagList) (change : Change) (n : Bytes)
      → change_ok change ≡ true
      → ((q : ℕ) → IsNamed (h.tag q))
      → IsName n
      → result.size ≡ length result.tags
      → length result.tags + length ps < u32
      → Gathered wanted h ps result n (gather wanted h ps result change)
  unfolding gather
  gather-Gathered h [] result change n ok named name sized room =
      Gathered-last h result change n ok named sized
  gather-Gathered h (p ∷ ps) result change n ok named name sized room =
      elim (Bool-cases (passes h p result)) [
        | inl e ↦
            rw (ok, e, append_tag-valid h result p (ground (arith, e)))
              (Gathered-added h p ps result n _ (passes-wanted h p result n named name e) (
                gather-Gathered (acquire h p) ps (with_tag result p) change_added n refl
                  (IsNamed-acquire h p named) name
                  (ground (arith, sized, room, length-append result.tags (p ∷ [])))
                  (omega (arith, room, length-append result.tags (p ∷ [])))))
        | inr e ↦
            rw (ok, e)
              (Gathered-skipped h p ps result n _ (passes-skipped h p result n named name sized e)
                (gather-Gathered h ps result change n ok named name sized (omega (arith, room))))
      ]
