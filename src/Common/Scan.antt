-- ===== src/Common/Scan.antt =====
-- Searches in texts: the functions of `string.h` that look for a text or cut one up.
use Prim.Native.Nat.{ℕ}
use mathlib.Core.Bool.{Bool, true, false, ◌&&◌, ◌||◌}
use mathlib.Core.List.{List, [], ◌∷◌}
use mathlib.Core.Option.{Option, none, some}
use lcfg_core.Common.Tests.{◌==◌, if◌then◌else◌}
use lcfg_core.Common.Text.{Bytes}

-- `strcmp(s, t) == 0`, on texts without NUL.
unfoldable pub same_text : Bytes → Bytes → Bool
same_text [] [] = true
same_text [] (d ∷ t) = false
same_text (c ∷ s) [] = false
same_text (c ∷ s) (d ∷ t) = c == d && same_text s t

-- `strncmp( s, needle, strlen(needle) ) == 0`
unfoldable pub starts_with : Bytes → Bytes → Bool
starts_with [] s = true
starts_with (d ∷ needle) [] = false
starts_with (d ∷ needle) (c ∷ s) = d == c && starts_with needle s

-- A pointer into a text: the bytes in front of it, the nearest first, and those from it on.
abbrev pub Position : Type 0
Position = Bytes × Bytes

-- `strstr`: the first position from the given one on at which the text starts.
unfoldable pub strstr : Bytes → Bytes → Bytes → Option Position
unfolding starts_with
strstr needle passed [] = if starts_with needle [] then some (passed, []) else none
strstr needle passed (c ∷ s) =
    let later = strstr needle (c ∷ passed) s in
    if starts_with needle (c ∷ s) then some (passed, c ∷ s) else later

-- The text in front of a position, in order, and behind it what follows.
unfoldable pub rejoin : Bytes → Bytes → Bytes
rejoin [] s = s
rejoin (c ∷ passed) s = rejoin passed (c ∷ s)

-- Is the word on the list?
unfoldable pub member : Bytes → List Bytes → Bool
unfolding same_text
member w [] = false
member w (v ∷ vs) = same_text v w || member w vs

-- A word is added unless it is empty.
abbrev pub add_word : Bytes → List Bytes → List Bytes
add_word [] ws = ws
add_word (c ∷ w) ws = (c ∷ w) ∷ ws

-- The words of a text between separators, as `strtok_r` yields them: the word at the start of
-- the text, which may be empty, and the words behind it.
module _ (sep : ℕ → Bool) where
  unfoldable pub head_word : Bytes → Bytes
  head_word [] = []
  head_word (c ∷ s) = if sep c then [] else c ∷ head_word s

  unfoldable pub tail_words : Bytes → List Bytes
  unfolding head_word
  tail_words [] = []
  tail_words (c ∷ s) = if sep c then add_word (head_word s) (tail_words s) else tail_words s

  unfoldable pub words : Bytes → List Bytes
  unfolding head_word tail_words
  words s = add_word (head_word s) (tail_words s)
