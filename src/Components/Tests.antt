-- ===== src/Components/Tests.antt =====
-- Runs of the operations on component sets, and the theorems about them at concrete inputs.
use lcfg_core.Common.{
  ◌+◌, ◌*◌, ◌≡◌, refl, true, none, some, codes, ◌==◌, arith, if◌then◌else◌, Bytes, is_alpha,
  is_word, change_ok,
}
use lcfg_core.Resource.{valid_name}
use lcfg_core.Components
use lcfg_core.Utils.Hash.{djbhash}
use lcfg_core.Components.{World, Component}
use lcfg_core.Components.Sets
use lcfg_core.Components.Sets.{
  ComponentSet, insert_component, find_component, find_or_create_component,
}
use lcfg_core.Components.Table.{IsTable, IsTable-new}
use lcfg_core.Components.Inserted.{
  insert_component-IsTable, insert_component-find_component, insert_component-change_ok,
}
use lcfg_core.Components.Created.{IsFound, find_or_create_component-IsFound}

abbrev named_component : Bytes → Component
named_component s = record Components.new { name = some s }

-- Two components, of the names "dns" and "file", and a second one of the name "dns".
abbrev world : World
world = record {
  comps = λ p. named_component (if p == 1 then codes "file" else codes "dns");
  next = 3;
}

abbrev one : (World × ComponentSet)
one = (insert_component world Sets.new 0).0

abbrev two : (World × ComponentSet)
two = (insert_component one.0 one.1 1).0

abbrev three : (World × ComponentSet)
three = (insert_component two.0 two.1 2).0

test_hash : djbhash (codes "ab") ≡ (((5381 * 33) + 97) * 33) + 98
unfolding djbhash
test_hash = refl

test_find : find_component two.0 two.1 (codes "file") ≡ some 1
unfolding find_component insert_component Sets.new Components.new
test_find = refl

test_replaced : find_component three.0 three.1 (codes "dns") ≡ some 2
unfolding find_component insert_component Sets.new Components.new
test_replaced = refl

test_missing : find_component three.0 three.1 (codes "x") ≡ none
unfolding find_component insert_component Sets.new Components.new
test_missing = refl

test_released : (three.0.comps 0).refcount ≡ 1
unfolding insert_component Sets.new Components.new
test_released = refl

one-IsTable : IsTable one.0 one.1
unfolding Components.new
one-IsTable =
    insert_component-IsTable world Sets.new 0 (IsTable-new world) (omega arith) (omega arith)

insert_component-IsTable_example : IsTable one.0 one.1
unfolding Components.new
insert_component-IsTable_example =
    insert_component-IsTable world Sets.new 0 (IsTable-new world) (omega arith) (omega arith)

insert_component-find_component_example :
    find_component two.0 two.1 (codes "dns") ≡ find_component one.0 one.1 (codes "dns")
unfolding Components.new Sets.new insert_component
insert_component-find_component_example =
    insert_component-find_component one.0 one.1 1 one-IsTable (omega arith) (omega arith)
      (codes "dns") refl

insert_component-change_ok_example : change_ok (insert_component world Sets.new 0).1 ≡ true
unfolding Components.new Sets.new Components.is_valid
insert_component-change_ok_example =
    insert_component-change_ok world Sets.new 0 (IsTable-new world) (omega arith) (omega arith) refl
      (omega arith)

find_or_create_component-IsFound_example :
    IsFound (codes "ssh") (find_or_create_component world Sets.new (codes "ssh"))
unfolding Sets.new valid_name is_alpha is_word
find_or_create_component-IsFound_example =
    find_or_create_component-IsFound world Sets.new (codes "ssh") (IsTable-new world)
      (λ i q bad. cc) refl (omega arith)
