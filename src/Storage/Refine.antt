-- ===== src/Storage/Refine.antt =====
-- The store as a map from digests to contents, which every sequence of its operations implements.
use agentchains.Base.{
  Text, same_text, ◌≡◌, refl, sym, ap, ◌∙◌, Bool, true, false, Option, none, some, List, [], ◌∷◌,
  if◌then◌else◌, arith, inl, inr, Bool-cases,
}
use agentchains.Storage.Store.{
  FilePath, Files, HashFs, same_path, file_at, unlink, normalize_hash, write_unless, put, path_of,
  read_file, get, delete_file, delete, below,
}
use agentchains.Storage.Names.{
  same_path→eq, IsHash, HasNoLinks, HasHexDigests, path_of-HasNoLinks, same_path-below,
  normalize_hash-IsHash,
}

pub data Operation : Type 0 where
  put_content delete_hash : Text → Operation

-- The files after the operations, the last one first in the list.
unfoldable pub run : HashFs → List Operation → Files
unfolding put delete
run fs [] = []
run fs (Operation.put_content c ∷ ops) = (put fs c (run fs ops)).0
run fs (Operation.delete_hash t ∷ ops) = (delete fs t (run fs ops)).0

-- A map from hexadecimal digests to contents.
abbrev pub Contents : Type 0
Contents = Text → Option Text

abbrev pub kept_or : Option Text → Text → Option Text
kept_or (some old) c = some old
kept_or none c = some c

abbrev pub add : Text → Text → Contents → Contents
add hex c m = λ h. if same_text h hex then kept_or (m h) c else m h

abbrev pub remove : Option Text → Contents → Contents
remove none m = m
remove (some hex) m = λ h. if same_text h hex then none else m h

unfoldable pub contents : HashFs → List Operation → Contents
unfolding normalize_hash
contents fs [] = λ h. none
contents fs (Operation.put_content c ∷ ops) = add (fs.digest c) c (contents fs ops)
contents fs (Operation.delete_hash t ∷ ops) = remove (normalize_hash t) (contents fs ops)

abbrev pub found_in : Contents → Option Text → Option Text
found_in m none = none
found_in m (some hex) = m hex

file_at-unlink_self : (p : FilePath) (files : Files) → file_at p (unlink p files) ≡ none
file_at-unlink_self p [] = refl
file_at-unlink_self p ((r, c) ∷ files) = ground (arith, file_at-unlink_self p files)

file_at-unlink_ne :
    (p q : FilePath) (files : Files)
    → same_path p q ≡ false
    → file_at p (unlink q files) ≡ file_at p files
file_at-unlink_ne p q [] ne = refl
file_at-unlink_ne p q ((r, c) ∷ files) ne = elim (Bool-cases (same_path q r)) [
  | inl e ↦
      let other : same_path p r ≡ false = ap (same_path p) (sym (same_path→eq q r e)) ∙ ne in
      rw (e, other) (file_at-unlink_ne p q files ne)
  | inr e ↦ rw e (ap (λ o. if same_path p r then some c else o) (file_at-unlink_ne p q files ne))
]

file_at-same :
    (p q : FilePath) (files : Files) → same_path p q ≡ true → file_at p files ≡ file_at q files
file_at-same p q files e = ap (λ r. file_at r files) (same_path→eq p q e)

file_at-write_unless :
    (p q : FilePath) (c : Text) (files : Files) (o : Option Text)
    → file_at q files ≡ o
    → file_at p (write_unless o q c files)
      ≡ (if same_path p q then kept_or (file_at p files) c else file_at p files)
file_at-write_unless p q c files (some old) h = elim (Bool-cases (same_path p q)) [
  | inl e ↦ rw (e, file_at-same p q files e ∙ h) refl
  | inr e ↦ rw e refl
]
file_at-write_unless p q c files none h = elim (Bool-cases (same_path p q)) [
  | inl e ↦ rw (e, file_at-same p q files e ∙ h) refl
  | inr e ↦ rw e refl
]

-- What is left of the files, where the path holds `o`.
abbrev left : Option Text → FilePath → Files → Files
left none q files = files
left (some c) q files = unlink q files

delete_file-left :
    (q : FilePath) (files : Files) → (delete_file (some q) files).0 ≡ left (file_at q files) q files
delete_file-left q files = told (file_at q files)
  where
    told :
        (o : Option Text)
        → (elim o as (λ _. Files × Bool) [
          | none ↦ (files, false)
          | some c ↦ (unlink q files, true)
        ]).0
          ≡ left o q files
    told none = refl
    told (some c) = refl

file_at-left :
    (p q : FilePath) (files : Files) (o : Option Text)
    → file_at q files ≡ o
    → file_at p (left o q files) ≡ (if same_path p q then none else file_at p files)
file_at-left p q files none h = elim (Bool-cases (same_path p q)) [
  | inl e ↦ rw (e, file_at-same p q files e ∙ h) refl
  | inr e ↦ rw e refl
]
file_at-left p q files (some c) h = elim (Bool-cases (same_path p q)) [
  | inl e ↦
      rw e (ap (λ r. file_at r (unlink q files)) (same_path→eq p q e) ∙ file_at-unlink_self q files)
  | inr e ↦ rw e (file_at-unlink_ne p q files e)
]

module _ (fs : HashFs) (plain : HasNoLinks fs) (digests : HasHexDigests fs) where
  file_at-remove :
      (o : Option Text) (files : Files) (m : Contents)
      → ((h : Text) → o ≡ some h → IsHash h)
      → ((h : Text) → IsHash h → file_at (below fs plain.base h) files ≡ m h)
      → (h : Text) → IsHash h
      → file_at (below fs plain.base h) (delete_file (path_of fs o) files).0 ≡ remove o m h
  file_at-remove none files m hashes same h hash = same h hash
  file_at-remove (some hex) files m hashes same h hash =
      let path = below fs plain.base in
      ap (λ q. file_at (path h) (delete_file q files).0)
        (path_of-HasNoLinks fs plain hex (hashes hex refl))
      ∙ ap (file_at (path h)) (delete_file-left (path hex) files)
      ∙ file_at-left (path h) (path hex) files _ refl
      ∙ rw (same_path-below fs plain.base h hex, same h hash) refl

  pub file_at-run :
      (ops : List Operation) (h : Text)
      → IsHash h
      → file_at (below fs plain.base h) (run fs ops) ≡ contents fs ops h
  unfolding run contents put delete
  file_at-run [] h hash = refl
  file_at-run (Operation.put_content c ∷ ops) h hash =
      let path = below fs plain.base in
      ap (λ p. file_at (path h) (write_unless (file_at p (run fs ops)) p c (run fs ops)))
        (plain.opens (fs.digest c) (digests c))
      ∙ file_at-write_unless (path h) (path (fs.digest c)) c (run fs ops) _ refl
      ∙ rw (same_path-below fs plain.base h (fs.digest c), file_at-run ops h hash) refl
  file_at-run (Operation.delete_hash t ∷ ops) h hash =
      file_at-remove (normalize_hash t) (run fs ops) (contents fs ops) (normalize_hash-IsHash t)
        (file_at-run ops) h hash

-- After every sequence of puts and deletes, a get returns what a map from digests to contents returns that
-- keeps the first content put under a digest until the digest is deleted: a hash names the same content with
-- and without its prefix and in either case, and a text that is no hash names none. Digests have 64
-- hexadecimal digits, and no path of a hash below the root has a link, while the root may be relative.
pub run_refines :
    (fs : HashFs) (ops : List Operation) (t : Text)
    → HasNoLinks fs
    → HasHexDigests fs
    → get fs t (run fs ops) ≡ found_in (contents fs ops) (normalize_hash t)
unfolding get
run_refines fs ops t plain digests = read (normalize_hash t) (normalize_hash-IsHash t)
  where
    read :
        (o : Option Text)
        → ((h : Text) → o ≡ some h → IsHash h)
        → read_file (path_of fs o) (run fs ops) ≡ found_in (contents fs ops) o
    read none hashes = refl
    read (some hex) hashes =
        ap (λ q. read_file q (run fs ops)) (path_of-HasNoLinks fs plain hex (hashes hex refl))
        ∙ file_at-run fs plain digests ops hex (hashes hex refl)
