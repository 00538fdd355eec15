-- ===== src/PackageList/Unique.antt =====
-- No two packages of a list have the same primary key: the invariant that the rules of
-- `lcfgpkglist_merge_package` in packages/list.c keep unless they keep all packages.
use lcfg_core.Common.{ℕ, ◌≡◌, ◌≢◌, sym, ◌∙◌, Bool, true, List, [], ◌∷◌, ◌++◌}
use lcfg_core.PackageList.Keys.{Key}

-- The nodes hold valid packages of which none has this key.
abbrev pub IsFree : (ℕ → Bool) → (ℕ → Key) → Key → List ℕ → Type 0
IsFree valid keys k [] = Unit
IsFree valid keys k (q ∷ qs) = (valid q ≡ true) × (keys q ≢ k) × IsFree valid keys k qs

-- The nodes hold valid packages of different keys.
abbrev pub IsUnique : (ℕ → Bool) → (ℕ → Key) → List ℕ → Type 0
IsUnique valid keys [] = Unit
IsUnique valid keys (q ∷ qs) =
    (valid q ≡ true) × IsFree valid keys (keys q) qs × IsUnique valid keys qs

module _ (valid : ℕ → Bool) (keys : ℕ → Key) where
  IsFree-append :
      (k : Key) (xs ys : List ℕ)
      → IsFree valid keys k xs
      → IsFree valid keys k ys
      → IsFree valid keys k (xs ++ ys)
  IsFree-append k [] ys h g = g
  IsFree-append k (x ∷ xs) ys (v, n, h) g = (v, n, IsFree-append k xs ys h g)

  IsFree-left : (k : Key) (xs ys : List ℕ) → IsFree valid keys k (xs ++ ys) → IsFree valid keys k xs
  IsFree-left k [] ys h = tt
  IsFree-left k (x ∷ xs) ys (v, n, h) = (v, n, IsFree-left k xs ys h)

  IsFree-right :
      (k : Key) (xs ys : List ℕ) → IsFree valid keys k (xs ++ ys) → IsFree valid keys k ys
  IsFree-right k [] ys h = h
  IsFree-right k (x ∷ xs) ys (v, n, h) = IsFree-right k xs ys h

  -- A node of a free key at the end.
  pub IsUnique-last :
      (xs : List ℕ) (p : ℕ)
      → valid p ≡ true
      → IsFree valid keys (keys p) xs
      → IsUnique valid keys xs
      → IsUnique valid keys (xs ++ (p ∷ []))
  IsUnique-last [] p v free u = (v, tt, tt)
  IsUnique-last (x ∷ xs) p v (_, n, free) (vx, fx, u) = (
    vx,
    IsFree-append (keys x) xs (p ∷ []) fx (v, (λ e. n (sym e)), tt),
    IsUnique-last xs p v free u,
  )

  -- The nodes around one have other keys, and are unique.
  pub IsUnique-around :
      (xs : List ℕ) (n : ℕ) (ys : List ℕ)
      → IsUnique valid keys (xs ++ n ∷ ys)
      → IsFree valid keys (keys n) (xs ++ ys) × IsUnique valid keys (xs ++ ys)
  IsUnique-around [] n ys (v, f, u) = (f, u)
  IsUnique-around (x ∷ xs) n ys (v, f, u) =
      let (free, unique) = IsUnique-around xs n ys u in
      let (_, ne, fr) = IsFree-right (keys x) xs (n ∷ ys) f in
      (
        (v, (λ e. ne (sym e)), free),
        (v, IsFree-append (keys x) xs ys (IsFree-left (keys x) xs (n ∷ ys) f) fr, unique),
      )

  -- Free and unique, by the keys of another heap that agrees on all nodes of other keys.
  pub IsFree-other :
      (valid' : ℕ → Bool) (keys' : ℕ → Key) (k l : Key) (xs : List ℕ)
      → ((x : ℕ) → keys x ≢ k → (valid' x ≡ valid x) × (keys' x ≡ keys x))
      → IsFree valid keys k xs
      → IsFree valid keys l xs
      → IsFree valid' keys' l xs
  IsFree-other valid' keys' k l [] same h g = tt
  IsFree-other valid' keys' k l (x ∷ xs) same (_, n, h) (v, m, g) =
      let (ev, ek) = same x n in
      (ev ∙ v, (λ e. m (sym ek ∙ e)), IsFree-other valid' keys' k l xs same h g)

  pub IsUnique-other :
      (valid' : ℕ → Bool) (keys' : ℕ → Key) (k : Key) (xs : List ℕ)
      → ((x : ℕ) → keys x ≢ k → (valid' x ≡ valid x) × (keys' x ≡ keys x))
      → IsFree valid keys k xs
      → IsUnique valid keys xs
      → IsUnique valid' keys' xs
  IsUnique-other valid' keys' k [] same h u = tt
  IsUnique-other valid' keys' k (x ∷ xs) same (vx, n, h) (v, f, u) =
      let (ev, ek) = same x n in
      (
        ev ∙ v,
        rw ek (IsFree-other valid' keys' k (keys x) xs same h f),
        IsUnique-other valid' keys' k xs same h u,
      )
