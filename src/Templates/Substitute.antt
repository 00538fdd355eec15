-- ===== src/Templates/Substitute.antt =====
-- Tags put into templates: lcfgtemplate_substitute and lcfgresource_build_name of
-- resources/templates.c.
use lcfg_core.Common.{
  ℕ, ◌+◌, ◌-◌, Option, none, some, List, [], ◌∷◌, ◌++◌, Bytes, or_default, take, drop, ltb,
  if◌then◌else◌,
}
use lcfg_core.Tags.{Tag, TagList, TagHeap}
use lcfg_core.Templates.{Template, find}

-- The tags of a list from its tail on, as `lcfgtagiter_prev` yields them.
unfoldable pub tags_back : TagHeap → List ℕ → List Tag
tags_back h [] = []
tags_back h (p ∷ ps) = tags_back h ps ++ (h.tag p ∷ [])

-- The length of the result: each tag replaces the one byte of a placeholder.
unfoldable pub add_lengths : ℕ → List ℕ → List Tag → ℕ
add_lengths new_len [] tags = new_len
add_lengths new_len (place ∷ places) [] = new_len
add_lengths new_len (place ∷ places) (t ∷ tags) = add_lengths (new_len + t.name_len - 1) places tags

-- The loop over the placeholders, the last first. The end of the buffer is written already, from
-- `offset` on; `end` is the offset in the template up to which it was read.
unfoldable pub substitute_loop : Bytes → List ℕ → List Tag → ℕ → ℕ × Bytes → ℕ × Bytes
substitute_loop template [] tags end (offset, written) = (offset, written)
substitute_loop template (place ∷ places) [] end (offset, written) = (offset, written)
substitute_loop template (place ∷ places) (t ∷ tags) end (offset, written) =
    let after_len = end - (place + 1) in
    let text = take after_len (drop (place + 1) template) in
    substitute_loop template places tags place
      (offset - after_len - t.name_len, take t.name_len (or_default t.name []) ++ (text ++ written))

-- The start of the template is copied in front of what is written.
abbrev pub copy_start : Bytes → ℕ × Bytes → Bytes
copy_start template (offset, written) = take offset template ++ written

-- `lcfgtemplate_substitute`; `none` stands for -1.
unfoldable pub substitute : TagHeap → Template → Option TagList → Option Bytes
unfolding tags_back add_lengths substitute_loop
substitute h t none = none
substitute h t (some taglist) =
    let template = or_default t.tmpl [] in
    let places = take t.pcount t.places in
    let tags = tags_back h taglist.tags in
    let new_len = add_lengths t.tmpl_len places tags in
    if ltb taglist.size t.pcount
    then none
    else some
        (copy_start template (substitute_loop template places tags (t.tmpl_len - 1) (new_len, [])))

-- The template that is found, with the tags in it.
abbrev pub substitute_found : TagHeap → Option Template → Option TagList → Option Bytes
substitute_found h none taglist = none
substitute_found h (some t) taglist = substitute h t taglist

-- `lcfgresource_build_name`; `none` stands for NULL.
unfoldable pub build_name : TagHeap → List Template → Option TagList → Bytes → Option Bytes
unfolding find substitute
build_name h templates taglist field_name = substitute_found h (find templates field_name) taglist
