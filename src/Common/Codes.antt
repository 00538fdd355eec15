-- ===== src/Common/Codes.antt =====
-- The enumerations of include/common.h that the components return.
use mathlib.Core.Bool.{Bool, true, false}

-- `LCFGStatus`.
pub data Status : Type 0 where
  status_error status_warn status_ok : Status

-- `LCFGChange`.
pub data Change : Type 0 where
  change_error change_none change_modified change_added change_replaced change_removed : Change

-- `LCFGChangeOK`.
abbrev pub change_ok : Change → Bool
change_ok change_error = false
change_ok _ = true

-- `change == LCFG_CHANGE_NONE`
abbrev pub unchanged : Change → Bool
unchanged change_none = true
unchanged _ = false

-- `change == LCFG_CHANGE_ADDED`
abbrev pub is_added : Change → Bool
is_added change_added = true
is_added _ = false

-- `change == LCFG_CHANGE_REMOVED`
abbrev pub is_removed : Change → Bool
is_removed change_removed = true
is_removed _ = false

-- `LCFGMergeRule`: the bits of the mask that the code tests.
pub record MergeRules : Type 0 where
  pub keep_all : Bool
  pub squash_identical : Bool
  pub use_priority : Bool
  pub use_prefix : Bool
  pub replace : Bool
