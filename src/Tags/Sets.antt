-- ===== src/Tags/Sets.antt =====
-- Lists of tags as sets, and their mutations: resources/tags/list.c. Messages are left out.
use lcfg_core.Common.{
  ℕ, ◌+◌, ◌*◌, length, Bool, true, not, ◌&&◌, Option, none, some, List, [], ◌∷◌, Bytes, or_default,
  ltb, ◌==◌, if◌then◌else◌, update, Change, change_error, change_none, change_ok,
}
use lcfg_core.Tags.{
  Tag, TagList, TagHeap, relinquish, is_valid, from_string, new_list, append_tag, prepend_tag,
  contains, compare_tags,
}
use lcfg_core.PackageList.Merge.{is_positive}
use lcfg_core.PackageList.Sort.{passes}

-- A new tag on the heap.
unfoldable pub allocate : TagHeap → Tag → TagHeap × ℕ
allocate h t = (record h { tag = update h.tag h.next t; next = h.next + 1 }, h.next)

-- The new tag stands in the list, if it was added, and its first reference is given back.
unfoldable pub mutate_with :
    (TagHeap → TagList → ℕ → (TagHeap × TagList) × Change)
    → TagHeap
    → TagList
    → Option Tag
    → (TagHeap × TagList) × Change
unfolding allocate relinquish
mutate_with add h list none = ((h, list), change_error)
mutate_with add h list (some t) =
    let (h', p) = allocate h t in
    let ((h'', list'), change) = add h' list p in ((relinquish h'' p, list'), change)

-- `lcfgtaglist_mutate_append`
unfoldable pub mutate_append : TagHeap → TagList → Bytes → (TagHeap × TagList) × Change
unfolding mutate_with from_string append_tag
mutate_append h list tagname = mutate_with append_tag h list (from_string (some tagname))

-- `lcfgtaglist_mutate_prepend`
unfoldable pub mutate_prepend : TagHeap → TagList → Bytes → (TagHeap × TagList) × Change
unfolding mutate_with from_string prepend_tag
mutate_prepend h list tagname = mutate_with prepend_tag h list (from_string (some tagname))

-- `lcfgtaglist_mutate_add`
unfoldable pub mutate_add : TagHeap → TagList → Bytes → (TagHeap × TagList) × Change
unfolding contains mutate_append
mutate_add h list tagname =
    if contains h list tagname then ((h, list), change_none) else mutate_append h list tagname

-- The loop of the set operations: the tags from `ps` that are valid, wanted by their names and not
-- yet in the result are appended to it.
unfoldable pub gather :
    (TagHeap → Bytes → Bool) → TagHeap → List ℕ → TagList → Change → (TagHeap × TagList) × Change
unfolding is_valid contains append_tag
gather wanted h [] result change = ((h, result), change)
gather wanted h (p ∷ ps) result change =
    let ((h', result'), change') = append_tag h result p in
    let added = gather wanted h' ps result' change' in
    let skipped = gather wanted h ps result change in
    let name = or_default (h.tag p).name [] in
    if not (change_ok change)
    then ((h, result), change)
    else if is_valid (h.tag p) && (wanted h name && not (contains h result name))
    then added
    else skipped

-- The loop of `lcfgtaglist_destroy`, from the tail on.
unfoldable pub relinquish_tags : TagHeap → List ℕ → TagHeap
unfolding relinquish
relinquish_tags h [] = h
relinquish_tags h (p ∷ ps) = relinquish (relinquish_tags h ps) p

-- The result, unless there was an error: then it is released, and there is none.
unfoldable pub finish : (TagHeap × TagList) × Change → TagHeap × Option TagList
unfolding relinquish_tags
finish ((h, result), change) =
    if change_ok change then (h, some result) else (relinquish_tags h result.tags, none)

-- `lcfgtaglist_set_unique`
unfoldable pub set_unique : TagHeap → TagList → TagHeap × Option TagList
unfolding gather finish new_list
set_unique h list = finish (gather (λ _ _. true) h list.tags new_list change_none)

-- The rest of `lcfgtaglist_set_union`, from the tags of the first list on.
unfoldable pub union_with : TagList → TagHeap × Option TagList → TagHeap × Option TagList
unfolding gather finish
union_with taglist2 (h, none) = (h, none)
union_with taglist2 (h, some result) =
    finish (gather (λ _ _. true) h taglist2.tags result change_none)

-- `lcfgtaglist_set_union`
unfoldable pub set_union : TagHeap → TagList → TagList → TagHeap × Option TagList
unfolding set_unique union_with new_list
set_union h taglist1 taglist2 =
    union_with taglist2 (if taglist1.size == 0 then (h, some new_list) else set_unique h taglist1)

-- `lcfgtaglist_set_intersection`
unfoldable pub set_intersection : TagHeap → TagList → TagList → TagHeap × Option TagList
unfolding gather finish new_list contains
set_intersection h taglist1 taglist2 =
    finish (gather (λ h' name. contains h' taglist2 name) h taglist1.tags new_list change_none)

-- `lcfgtaglist_set_subtract`
unfoldable pub set_subtract : TagHeap → TagList → TagList → TagHeap × Option TagList
unfolding gather finish new_list contains
set_subtract h taglist1 taglist2 =
    finish
      (gather (λ h' name. not (contains h' taglist2 name)) h taglist1.tags new_list change_none)

-- `lcfgtaglist_sort`
unfoldable pub sort : TagHeap → TagList → TagList
unfolding compare_tags passes
sort h list = if ltb list.size 2 then list else record list {
  tags =
      passes (λ p q. is_positive (compare_tags (h.tag p) (h.tag q)))
        (length list.tags * length list.tags) list.tags;
}
