-- ===== src/Resource/Encode.antt =====
-- The encoding of resource values: lcfgresource_enc_value of resources/resource.c.
use lcfg_core.Common.{
  ℕ, ◌+◌, ◌-◌, ◌≡◌, refl, sym, ap, ◌∙◌, Bool, true, false, not, ◌&&◌, ◌||◌, none, some, [], ◌∷◌,
  ◌++◌, Bytes, CString, or_default, codes, elem, all_bytes, length, length-append, ◌==◌,
  if◌then◌else◌, arith, Bool-cases, inl, inr,
}
use lcfg_core.Resource.{Resource, has_value}

-- `unsafe_chars`: \r, \n and &.
abbrev pub unsafe_chars : Bytes
unsafe_chars = 13 ∷ 10 ∷ b'&' ∷ []

-- `lcfgresource_value_needs_encode`
unfoldable pub value_needs_encode : Resource → Bool
unfolding has_value
value_needs_encode res =
    if not (has_value res)
    then false
    else not (all_bytes (λ c. not (elem c unsafe_chars)) (or_default res.value []))

-- The entities that stand for \r, \n and &.
abbrev pub cr : Bytes
cr = codes "&#xD;"

abbrev pub lf : Bytes
lf = codes "&#xA;"

abbrev pub amp : Bytes
amp = codes "&#x26;"

-- What a byte adds to the length.
unfoldable pub extend_of : ℕ → ℕ
extend_of c =
    if c == 13
    then length cr - 1
    else if c == 10
    then length lf - 1
    else if c == b'&'
    then length amp - 1
    else 0

-- The loop that computes `extend`.
unfoldable pub extend_by : Bytes → ℕ
unfolding extend_of
extend_by [] = 0
extend_by (c ∷ s) = extend_of c + extend_by s

-- What the second loop writes for a byte.
unfoldable pub encode_byte : ℕ → Bytes
encode_byte c = if c == 13 then cr else if c == 10 then lf else if c == b'&' then amp else c ∷ []

unfoldable pub encode : Bytes → Bytes
unfolding encode_byte
encode [] = []
encode (c ∷ s) = encode_byte c ++ encode s

-- The encoded value: the buffer has room for `new_len` bytes, which is what is written.
unfoldable pub encode_value : Bytes → Bytes
unfolding extend_by encode
encode_value value = if extend_by value == 0 then value else encode value

-- A missing value stays missing.
unfoldable pub enc_given : CString → CString
unfolding encode_value
enc_given none = none
enc_given (some value) = some (encode_value value)

-- `lcfgresource_enc_value`
unfoldable pub enc_value : Resource → CString
unfolding enc_given
enc_value res = enc_given res.value

-- `assert( ( enc_value + new_len ) == to )`
length-encode_byte : (c : ℕ) → length (encode_byte c) ≡ 1 + extend_of c
unfolding encode_byte extend_of
length-encode_byte c = ground arith

length-encode : (s : Bytes) → length (encode s) ≡ length s + extend_by s
unfolding encode extend_by
length-encode [] = refl
length-encode (c ∷ s) =
    length-append (encode_byte c) (encode s) ∙ omega (arith, length-encode_byte c, length-encode s)

encode_byte-same : (c : ℕ) → extend_of c ≡ 0 → encode_byte c ≡ c ∷ []
unfolding encode_byte extend_of
encode_byte-same c h = ground (arith, h)

encode-same : (s : Bytes) → extend_by s ≡ 0 → encode s ≡ s
unfolding encode extend_by
encode-same [] h = refl
encode-same (c ∷ s) h =
    rw (encode_byte-same c (omega (arith, h)), encode-same s (omega (arith, h))) refl

encode_value-encode : (s : Bytes) → encode_value s ≡ encode s
unfolding encode_value
encode_value-encode s = elim (Bool-cases (extend_by s == 0)) [
  | inl e ↦ let z : extend_by s ≡ 0 = ground (arith, e) in rw e (sym (encode-same s z))
  | inr e ↦ rw e refl
]

-- Two texts that start with encoded bytes agree only if the bytes and the rests do.
encode_byte-split :
    (c d : ℕ) (a b : Bytes) → encode_byte c ++ a ≡ encode_byte d ++ b → (c ≡ d) × (a ≡ b)
unfolding encode_byte
encode_byte-split c d a b h = ground (arith, h)

encode_byte-filled : (c : ℕ) (a : Bytes) → encode_byte c ++ a ≡ [] → ⊥
unfolding encode_byte
encode_byte-filled c a h = ground (arith, h)

encode-injective : (s t : Bytes) → encode s ≡ encode t → s ≡ t
unfolding encode
encode-injective [] [] h = refl
encode-injective [] (d ∷ t) h = absurd (encode_byte-filled d (encode t) (sym h))
encode-injective (c ∷ s) [] h = absurd (encode_byte-filled c (encode s) h)
encode-injective (c ∷ s) (d ∷ t) h =
    let (e, k) = encode_byte-split c d (encode s) (encode t) h in
    rw (e, encode-injective s t k) refl

enc_given-injective : (v w : CString) → enc_given v ≡ enc_given w → v ≡ w
unfolding enc_given
enc_given-injective none none h = refl
enc_given-injective none (some t) h = cc
enc_given-injective (some s) none h = cc
enc_given-injective (some s) (some t) h =
    let e : encode_value s ≡ encode_value t = cc in
    ap some (encode-injective s t (sym (encode_value-encode s) ∙ (e ∙ encode_value-encode t)))

-- Values are encoded without loss: two resources whose encoded values agree have the same value.
pub enc_value-injective : (r1 r2 : Resource) → enc_value r1 ≡ enc_value r2 → r1.value ≡ r2.value
unfolding enc_value
enc_value-injective r1 r2 h = enc_given-injective r1.value r2.value h

-- Neither \r nor \n.
abbrev pub is_line_byte : ℕ → Bool
is_line_byte c = not (c == 13 || c == 10)

all_bytes-append :
    (p : ℕ → Bool) (a b : Bytes) → all_bytes p (a ++ b) ≡ (all_bytes p a && all_bytes p b)
all_bytes-append p [] b = refl
all_bytes-append p (c ∷ a) b = rw (all_bytes-append p a b) (ground arith)

encode_byte-line : (c : ℕ) → all_bytes is_line_byte (encode_byte c) ≡ true
unfolding encode_byte
encode_byte-line c = ground arith

encode-line : (s : Bytes) → all_bytes is_line_byte (encode s) ≡ true
unfolding encode
encode-line [] = refl
encode-line (c ∷ s) =
    rw (all_bytes-append is_line_byte (encode_byte c) (encode s), encode_byte-line c, encode-line s)
      refl

extend_of-unsafe : (c : ℕ) → (extend_of c == 0) ≡ not (elem c unsafe_chars)
unfolding extend_of
extend_of-unsafe c = ground arith

sum_zero : (a b : ℕ) → (a + b == 0) ≡ (a == 0 && b == 0)
sum_zero a b = ground arith

extend_by-unsafe : (s : Bytes) → (extend_by s == 0) ≡ all_bytes (λ c. not (elem c unsafe_chars)) s
unfolding extend_by
extend_by-unsafe [] = refl
extend_by-unsafe (c ∷ s) =
    sum_zero (extend_of c) (extend_by s) ∙ rw (extend_of-unsafe c, extend_by-unsafe s) refl

needs_encode-extend :
    (res : Resource) (s : Bytes)
    → res.value ≡ some s
    → value_needs_encode res ≡ not (extend_by s == 0)
unfolding value_needs_encode has_value extend_by
needs_encode-extend res [] h = rw h refl
needs_encode-extend res (c ∷ s) h = rw h (ap not (sym (extend_by-unsafe (c ∷ s))))

-- The encoded value is one line, and fills the buffer that is computed for it; the buffer is
-- larger than the value exactly if lcfgresource_value_needs_encode says so.
pub enc_value-line :
    (res : Resource) (s : Bytes)
    → res.value ≡ some s
    → (enc : Bytes) × (enc_value res ≡ some enc)
      × (all_bytes is_line_byte enc ≡ true)
      × (length enc ≡ length s + extend_by s)
      × (value_needs_encode res ≡ not (extend_by s == 0))
unfolding enc_value enc_given
enc_value-line res s h = (
  encode_value s,
  rw h refl,
  rw (encode_value-encode s) (encode-line s),
  rw (encode_value-encode s) (length-encode s),
  needs_encode-extend res s h,
)
