-- ===== src/Utils/Hash.antt =====
-- The hash of texts: lcfgutils_string_djbhash of utils/utils.c.
use lcfg_core.Common.{ℕ, ◌+◌, ◌-◌, ◌*◌, ◌%◌, [], ◌∷◌, Bytes, ltb, if◌then◌else◌}

-- `unsigned long` and `size_t` have 64 bits.
abbrev pub u64 : ℕ
u64 = 18446744073709551616

-- A `char` that is added to an `unsigned long`: it is signed.
unfoldable pub widen : ℕ → ℕ
widen c = if ltb c 128 then c else (u64 + c) - 256

-- The loop of `lcfgutils_string_djbhash`.
unfoldable pub djb_loop : ℕ → Bytes → ℕ
unfolding widen
djb_loop hash [] = hash
djb_loop hash (c ∷ s) = djb_loop (((((hash * 32) % u64) + hash) + widen c) % u64) s

-- `lcfgutils_string_djbhash`, of one string.
unfoldable pub djbhash : Bytes → ℕ
unfolding djb_loop
djbhash s = djb_loop 5381 s
