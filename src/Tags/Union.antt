-- ===== src/Tags/Union.antt =====
-- The set operations of resources/tags/list.c have the members that their names promise.
use lcfg_core.Common.{
  ℕ, ◌+◌, ◌<◌, ◌≤◌, ◌≡◌, refl, sym, ap, ◌∙◌, Bool, true, false, not, ◌&&◌, ◌||◌, Option, some, List,
  Bytes, length, ◌==◌, Change, change_none, arith, Bool-cases, inl, inr,
}
use lcfg_core.Derivation.{u32}
use lcfg_core.Tags.{Tag, TagList, TagHeap, acquire, is_valid, match, contains, append_tag, new_list}
use lcfg_core.Tags.Sets.{
  gather, finish, set_unique, union_with, set_union, set_intersection, set_subtract,
}
use lcfg_core.Tags.Members.{IsNamed, IsName, has, contains-has, has-acquire}
use lcfg_core.Tags.Gather.{Gathered, gather-Gathered}

-- The result of a set operation has these members and is right in size.
pub record IsResult (h : TagHeap) (n : Bytes) (b : Bool) (r : TagHeap × Option TagList)
    : Type 0 where
  pub list : TagList
  pub given : r.1 ≡ some list
  pub members : contains r.0 list n ≡ b

-- The loop did not fail, so that its result is the result.
finish-IsResult :
    (wanted : TagHeap → Bytes → Bool) (h : TagHeap) (ps : List ℕ) (result : TagList) (n : Bytes)
    → (r : (TagHeap × TagList) × Change) → Gathered wanted h ps result n r
    → IsResult h n (has h result.tags n || (wanted h n && has h ps n)) (finish r)
unfolding finish
finish-IsResult wanted h ps result n r g = record {
  list = r.0.1;
  given = rw g.ok refl;
  members = rw g.ok (contains-has r.0.0 r.0.1 n g.sized ∙ g.members);
}

contains-acquire :
    (list : TagList) (h : TagHeap) (p : ℕ) (n : Bytes)
    → list.size ≡ length list.tags
    → contains (acquire h p) list n ≡ contains h list n
contains-acquire list h p n sized =
    contains-has (acquire h p) list n sized
    ∙ has-acquire h p list.tags n
    ∙ sym (contains-has h list n sized)

module _ (h : TagHeap) (l1 l2 : TagList) (n : Bytes) (named : (q : ℕ) → IsNamed (h.tag q))
    (name : IsName n) (sized1 : l1.size ≡ length l1.tags) (sized2 : l2.size ≡ length l2.tags)
    (room : length l1.tags + length l2.tags < u32) where
  -- The intersection succeeds and contains a name where both lists do, for a name that is not
  -- empty and holds no NUL, tags with the lengths of their names recorded, lists of the right size,
  -- and fewer than 2^32 tags in both.
  pub set_intersection-IsResult :
      IsResult h n (contains h l2 n && contains h l1 n) (set_intersection h l1 l2)
  unfolding set_intersection new_list has
  set_intersection-IsResult = rw (contains-has h l1 n sized1) (
      finish-IsResult (λ h' m. contains h' l2 m) h l1.tags new_list n _
        (gather-Gathered (λ h' m. contains h' l2 m) (λ h' p m. contains-acquire l2 h' p m sized2) h
          l1.tags new_list change_none n refl named name refl (omega (arith, room))))

  -- The difference succeeds and contains a name where only the first list does, for a name that is not
  -- empty and holds no NUL, tags with the lengths of their names recorded, lists of the right size,
  -- and fewer than 2^32 tags in both.
  pub set_subtract-IsResult :
      IsResult h n (not (contains h l2 n) && contains h l1 n) (set_subtract h l1 l2)
  unfolding set_subtract new_list has
  set_subtract-IsResult = rw (contains-has h l1 n sized1) (
      finish-IsResult (λ h' m. not (contains h' l2 m)) h l1.tags new_list n _
        (gather-Gathered (λ h' m. not (contains h' l2 m))
          (λ h' p m. ap not (contains-acquire l2 h' p m sized2)) h l1.tags new_list change_none n
          refl named name refl (omega (arith, room))))

  -- The tags of the first list, once for each name.
  unique : (TagHeap × TagList) × Change
  unfolding new_list
  unique = gather (λ _ _. true) h l1.tags new_list change_none

  unique-Gathered : Gathered (λ _ _. true) h l1.tags new_list n unique
  unfolding unique new_list
  unique-Gathered =
      gather-Gathered (λ _ _. true) (λ _ _ _. refl) h l1.tags new_list change_none n refl named name
        refl (omega (arith, room))

  -- The second list is added to what the first one has left.
  union_with-IsResult :
      (h1 : TagHeap) (result : TagList) (b : Bool)
      → ((q : ℕ) → IsNamed (h1.tag q))
      → result.size ≡ length result.tags
      → length result.tags ≤ length l1.tags
      → has h1 result.tags n ≡ b
      → has h1 l2.tags n ≡ has h l2.tags n
      → IsResult h n (b || contains h l2 n) (union_with l2 (h1, some result))
  unfolding union_with
  union_with-IsResult h1 result b named1 sized short met same =
      let g =
        gather-Gathered (λ _ _. true) (λ _ _ _. refl) h1 l2.tags result change_none n refl named1
          name sized (omega (arith, room, short)) in
      let r = finish-IsResult (λ _ _. true) h1 l2.tags result n _ g in
      record {
        list = r.list;
        given = r.given;
        members = r.members ∙ rw (met, same, contains-has h l2 n sized2) refl;
      }

  set_union_empty : (l1.size == 0) ≡ true → set_union h l1 l2 ≡ union_with l2 (h, some new_list)
  unfolding set_union
  set_union_empty e = rw e refl

  set_union_unique :
      (l1.size == 0) ≡ false → set_union h l1 l2 ≡ union_with l2 (unique.0.0, some unique.0.1)
  unfolding set_union set_unique finish unique
  set_union_unique e = rw (e, unique-Gathered.ok) refl

  contains_none : (l1.size == 0) ≡ true → has h new_list.tags n ≡ contains h l1 n
  unfolding contains new_list has lcfg_core.Tags.find_tag
  contains_none e = rw e refl

  unique-members : has unique.0.0 unique.0.1.tags n ≡ contains h l1 n
  unfolding has new_list
  unique-members = unique-Gathered.members ∙ sym (contains-has h l1 n sized1)

  -- The union succeeds and contains a name where one of the lists does, for a name that is not
  -- empty and holds no NUL, tags with the lengths of their names recorded, lists of the right size,
  -- and fewer than 2^32 tags in both.
  pub set_union-IsResult : IsResult h n (contains h l1 n || contains h l2 n) (set_union h l1 l2)
  unfolding new_list
  set_union-IsResult = elim (Bool-cases (l1.size == 0)) [
    | inl e ↦ rw (set_union_empty e) (
        union_with-IsResult h new_list (contains h l1 n) named refl (omega arith) (contains_none e)
          refl)
    | inr e ↦ rw (set_union_unique e) (
        union_with-IsResult unique.0.0 unique.0.1 (contains h l1 n) unique-Gathered.named
          unique-Gathered.sized (omega (arith, unique-Gathered.short)) unique-members
          (unique-Gathered.same l2.tags))
  ]
