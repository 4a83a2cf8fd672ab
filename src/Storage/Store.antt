-- ===== src/Storage/Store.antt =====
-- The class `HashFS` of marketplace/storage/hashfs.py. A text is a list of characters' codes, a path a list
-- of names, and the directory a list of files; `str.lower` is that of ASCII.
use agentchains.Base.{
  Text, same_text, ℕ, zero, suc, ◌+◌, ◌*◌, Bool, true, false, ◌&&◌, ◌||◌, Option, none, some, List,
  [], ◌∷◌, ◌++◌, map, all, length, take, drop, leb, ◌==◌, if◌then◌else◌,
}

abbrev pub FilePath : Type 0
FilePath = List Text

abbrev pub Files : Type 0
Files = List (FilePath × Text)

-- `sha256(content).hexdigest()`, `Path.resolve`, none for an `OSError`, and the file that the system opens for
-- a path, are parameters. A file is listed under the path that the system opens.
pub record HashFs : Type 0 where
  pub root : FilePath
  pub depth : ℕ
  pub width : ℕ
  pub digest : Text → Text
  pub resolve : FilePath → Option FilePath
  pub locate : FilePath → FilePath

abbrev pub same_path : FilePath → FilePath → Bool
same_path [] [] = true
same_path (x ∷ xs) (y ∷ ys) = same_text x y && same_path xs ys
same_path _ _ = false

abbrev pub file_at : FilePath → Files → Option Text
file_at p [] = none
file_at p ((q, c) ∷ files) = let rest = file_at p files in if same_path p q then some c else rest

abbrev pub unlink : FilePath → Files → Files
unlink p [] = []
unlink p ((q, c) ∷ files) =
    let rest = unlink p files in if same_path p q then rest else (q, c) ∷ rest

-- "sha256:"
abbrev pub prefix : Text
prefix = 115 ∷ 104 ∷ 97 ∷ 50 ∷ 53 ∷ 54 ∷ 58 ∷ []

abbrev pub starts_with : Text → Text → Bool
starts_with [] t = true
starts_with (p ∷ ps) [] = false
starts_with (p ∷ ps) (x ∷ xs) = (p == x) && starts_with ps xs

-- `replace("sha256:", "")`, with the characters of an occurrence that are still to be passed over.
abbrev pub strip_from : ℕ → Text → Text
strip_from skip [] = []
strip_from (suc n) (x ∷ xs) = strip_from n xs
strip_from zero (x ∷ xs) =
    let inside = strip_from 6 xs in
    let rest = strip_from 0 xs in if starts_with prefix (x ∷ xs) then inside else x ∷ rest

abbrev pub strip_prefix : Text → Text
strip_prefix t = strip_from 0 t

abbrev pub lower : ℕ → ℕ
lower c = if leb 65 c && leb c 90 then c + 32 else c

abbrev pub is_hex : ℕ → Bool
is_hex c = (leb 48 c && leb c 57) || (leb 97 c && leb c 102)

abbrev pub checked_hash : Text → Option Text
checked_hash hex = if (length hex == 64) && all is_hex hex then some hex else none

unfoldable pub normalize_hash : Text → Option Text
normalize_hash content_hash = checked_hash (map lower (strip_prefix content_hash))

abbrev pub parts : ℕ → ℕ → ℕ → Text → FilePath
parts width i zero hex = []
parts width i (suc n) hex = take width (drop (i * width) hex) ∷ parts width (suc i) n hex

abbrev pub is_within : FilePath → FilePath → Bool
is_within [] p = true
is_within (r ∷ rs) [] = false
is_within (r ∷ rs) (x ∷ xs) = same_text r x && is_within rs xs

abbrev pub write_unless : Option Text → FilePath → Text → Files → Files
write_unless (some old) path content files = files
write_unless none path content files = (path, content) ∷ files

abbrev pub read_file : Option FilePath → Files → Option Text
read_file none files = none
read_file (some path) files = file_at path files

abbrev pub delete_file : Option FilePath → Files → Files × Bool
delete_file none files = (files, false)
delete_file (some path) files = elim (file_at path files) [
  | none ↦ (files, false)
  | some c ↦ (unlink path files, true)
]

module _ (fs : HashFs) where
  -- The path of a hash below a directory.
  abbrev pub below : FilePath → Text → FilePath
  below dir hex = dir ++ (parts fs.width 0 fs.depth hex ++ hex ∷ [])

  abbrev pub hash_to_path : Text → FilePath
  hash_to_path hex = below fs.root hex

  abbrev pub safe_path : Text → Option FilePath
  safe_path hex = elim (fs.resolve fs.root) [
    | none ↦ none
    | some root ↦ elim (fs.resolve (hash_to_path hex)) [
      | none ↦ none
      | some path ↦ if is_within root path then some path else none
    ]
  ]

  abbrev pub compute_hash : Text → Text
  compute_hash content = prefix ++ fs.digest content

  unfoldable pub put : Text → Files → Files × Text
  put content files =
      let path = fs.locate (hash_to_path (fs.digest content)) in
      (write_unless (file_at path files) path content files, compute_hash content)

  abbrev pub opened : Option FilePath → Option FilePath
  opened none = none
  opened (some path) = some (fs.locate path)

  -- The file of a hash, if it has one.
  abbrev pub path_of : Option Text → Option FilePath
  path_of none = none
  path_of (some hex) = opened (safe_path hex)

  unfoldable pub get : Text → Files → Option Text
  unfolding normalize_hash
  get content_hash files = read_file (path_of (normalize_hash content_hash)) files

  unfoldable pub exists : Text → Files → Bool
  unfolding normalize_hash
  exists content_hash files = elim (read_file (path_of (normalize_hash content_hash)) files) [
    | none ↦ false
    | some c ↦ true
  ]

  unfoldable pub delete : Text → Files → Files × Bool
  unfolding normalize_hash
  delete content_hash files = delete_file (path_of (normalize_hash content_hash)) files

  unfoldable pub verify : Text → Text → Bool
  unfolding normalize_hash
  verify content expected_hash = elim (normalize_hash expected_hash) [
    | none ↦ false
    | some hex ↦ same_text (fs.digest content) hex
  ]
