-- ===== src/Storage/Names.antt =====
-- The names of the store: a hash is read back from its text, and two hashes have two paths.
use mathlib.Core.Path.{subst}
use agentchains.Base.{
  ==→eq, ◌&&◌, Text, same_text_self, same_text→eq, same_text, ℕ, ◌≡◌, refl, sym, ap, ◌∙◌, true,
  false, some, [], ◌∷◌, ◌++◌, map, all, length, ◌==◌, arith, inl, inr, Bool-cases, and_left,
  and_right,
}
use agentchains.Storage.Store.{
  FilePath, HashFs, same_path, strip_from, lower, is_hex, checked_hash, normalize_hash, is_within,
  hash_to_path, below, opened, path_of, strip_prefix, safe_path, compute_hash, parts,
}

-- A SHA-256 digest in lower-case hexadecimal digits.
abbrev pub IsHash : Text → Type 0
IsHash h = (length h ≡ 64) × (all is_hex h ≡ true)

-- What `hexdigest` promises.
abbrev pub HasHexDigests : HashFs → Type 0
HasHexDigests fs = (c : Text) → IsHash (fs.digest c)

-- Where no directory or file of a hash below the root is a link, the root may be relative or a link itself:
-- `Path.resolve` replaces the root by one directory, and the system opens the same file for the path of a hash
-- below the root and below that directory.
pub record HasNoLinks (fs : HashFs) : Type 0 where
  pub base : FilePath
  pub root_resolves : fs.resolve fs.root ≡ some base
  pub resolves : (h : Text) → IsHash h → fs.resolve (hash_to_path fs h) ≡ some (below fs base h)
  pub opens : (h : Text) → IsHash h → fs.locate (hash_to_path fs h) ≡ below fs base h
  pub reopens : (h : Text) → IsHash h → fs.locate (below fs base h) ≡ below fs base h

pub same_path_self : (p : FilePath) → same_path p p ≡ true
same_path_self [] = refl
same_path_self (x ∷ xs) = rw (same_text_self x, same_path_self xs) refl

pub same_path→eq : (p q : FilePath) → same_path p q ≡ true → p ≡ q
same_path→eq [] [] h = refl
same_path→eq [] (y ∷ ys) h = absurd (ground (arith, h))
same_path→eq (x ∷ xs) [] h = absurd (ground (arith, h))
same_path→eq (x ∷ xs) (y ∷ ys) h =
    let e = same_text→eq x y (and_left _ _ h) in
    let es = same_path→eq xs ys (and_right (same_text x y) _ h) in cc

name_of : FilePath → Text
name_of [] = []
name_of (x ∷ []) = x
name_of (x ∷ y ∷ rest) = name_of (y ∷ rest)

name_of-end : (p : FilePath) (t : Text) → name_of (p ++ t ∷ []) ≡ t
unfolding name_of
name_of-end [] t = refl
name_of-end (x ∷ []) t = refl
name_of-end (x ∷ y ∷ rest) t = name_of-end (y ∷ rest) t

append_assoc : (p q r : FilePath) → p ++ (q ++ r) ≡ (p ++ q) ++ r
append_assoc [] q r = refl
append_assoc (x ∷ p) q r = ap (λ s. x ∷ s) (append_assoc p q r)

name_of-below : (fs : HashFs) (dir : FilePath) (t : Text) → name_of (below fs dir t) ≡ t
name_of-below fs dir t =
    ap name_of (append_assoc dir (parts fs.width 0 fs.depth t) (t ∷ []))
    ∙ name_of-end (dir ++ parts fs.width 0 fs.depth t) t

pub same_path-below :
    (fs : HashFs) (dir : FilePath) (s t : Text)
    → same_path (below fs dir s) (below fs dir t) ≡ same_text s t
same_path-below fs dir s t = elim (Bool-cases (same_text s t)) [
  | inl e ↦ rw (same_text→eq s t e, same_text_self t, same_path_self (below fs dir t)) refl
  | inr e ↦ elim (Bool-cases (same_path (below fs dir s) (below fs dir t))) [
    | inr e' ↦ e' ∙ sym e
    | inl e' ↦
        let same : s ≡ t =
          sym (name_of-below fs dir s)
          ∙ ap name_of (same_path→eq _ _ e')
          ∙ name_of-below fs dir t in
        let held : same_text s t ≡ true = rw same (same_text_self t) in
        absurd (ground (arith, e, held))
  ]
]

is_within-root : (r p : FilePath) → is_within r (r ++ p) ≡ true
is_within-root [] p = refl
is_within-root (x ∷ r) p = rw (same_text_self x, is_within-root r p) refl

pub path_of-HasNoLinks :
    (fs : HashFs) (plain : HasNoLinks fs) (t : Text)
    → IsHash t
    → path_of fs (some t) ≡ some (below fs plain.base t)
path_of-HasNoLinks fs plain t hash = ap (opened fs) safe ∙ ap some (plain.reopens t hash)
  where
    safe : safe_path fs t ≡ some (below fs plain.base t)
    safe =
        rw
          (
            safe_path,
            plain.root_resolves,
            plain.resolves t hash,
            is_within-root plain.base (parts fs.width 0 fs.depth t ++ t ∷ []),
          )
          refl

checked_hash-IsHash : (t h : Text) → checked_hash t ≡ some h → IsHash h
checked_hash-IsHash t h e = elim (Bool-cases ((length t == 64) && all is_hex t)) [
  | inr no_ ↦ absurd (ground (arith, e, no_))
  | inl passed ↦
      let same : t ≡ h = ground (arith, e, passed) in
      subst IsHash same
        (==→eq (length t) 64 (and_left _ _ passed), and_right (length t == 64) _ passed)
]

pub normalize_hash-IsHash : (t h : Text) → normalize_hash t ≡ some h → IsHash h
unfolding normalize_hash
normalize_hash-IsHash t h e = checked_hash-IsHash (map lower (strip_prefix t)) h e

no_prefix : (x : ℕ) → is_hex x ≡ true → (115 == x) ≡ false
no_prefix x h = ground (arith, h)

strip_hex : (t : Text) → all is_hex t ≡ true → strip_from 0 t ≡ t
strip_hex [] h = refl
strip_hex (x ∷ xs) h =
    rw (no_prefix x (and_left _ _ h)) (ap (λ t. x ∷ t) (strip_hex xs (and_right (is_hex x) _ h)))

lower_hex : (t : Text) → all is_hex t ≡ true → map lower t ≡ t
lower_hex [] h = refl
lower_hex (x ∷ xs) h =
    let rest = lower_hex xs (and_right (is_hex x) _ h) in
    let same : lower x ≡ x = ground (arith, h) in cc

pub normalize_hash-compute_hash :
    (fs : HashFs) (c : Text)
    → HasHexDigests fs
    → normalize_hash (compute_hash fs c) ≡ some (fs.digest c)
unfolding normalize_hash
normalize_hash-compute_hash fs c hex =
    let stripped = strip_hex (fs.digest c) (hex c).1 in
    let lowered = lower_hex (fs.digest c) (hex c).1 in
    ap (λ t. checked_hash (map lower t)) stripped
    ∙ ap checked_hash lowered
    ∙ checked_digest (fs.digest c) (hex c)
  where
    checked_digest : (t : Text) → (length t ≡ 64) × (all is_hex t ≡ true) → checked_hash t ≡ some t
    checked_digest t (long, hexed) = rw (long, hexed) refl
