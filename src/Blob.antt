-- ===== src/Blob.antt =====
-- internal/adapters/blob/local.go: blobs in files under a root directory. A key is a text of bytes,
-- and a path the list of its names, from the file up to the root. Directories are made as needed.
pub mod Paths
pub mod Files
mod Examples
use arena.Common.{
  ℕ, ltb, leb, ◌==◌, Bool, true, false, ◌&&◌, ◌||◌, not, Option, none, some, List, [], ◌∷◌, ◌++◌,
  length, take, if◌then◌else◌,
}

abbrev pub Name : Type 0
Name = List ℕ

abbrev pub same_name : Name → Name → Bool
same_name [] [] = true
same_name [] (y ∷ b) = false
same_name (x ∷ a) [] = false
same_name (x ∷ a) (y ∷ b) = let rest = same_name a b in x == y && rest

-- "." and ".."
abbrev pub dot : Name
dot = 46 ∷ []

abbrev pub dots : Name
dots = 46 ∷ 46 ∷ []

-- One name on the way: nothing and "." stay, ".." goes up, and stays at the root.
abbrev pub above : List Name → List Name
above [] = []
above (n ∷ up) = up

abbrev pub is_nothing : Name → Bool
is_nothing [] = true
is_nothing (x ∷ n) = false

unfoldable pub enter : List Name → Name → List Name
enter up n =
    if is_nothing n || same_name n dot then up else if same_name n dots then above up else n ∷ up

-- `filepath.Clean` of a key below "/", in one walk: the names above, and the name so far, reversed.
unfoldable pub reversed : Name → Name → Name
reversed [] acc = acc
reversed (x ∷ n) acc = reversed n (x ∷ acc)

unfoldable pub clean_from : List Name → Name → List ℕ → List Name
unfolding enter reversed
clean_from up n [] = enter up (reversed n [])
clean_from up n (b ∷ key) =
    let within = clean_from up (b ∷ n) key in
    let next = clean_from (enter up (reversed n [])) [] key in if b == 47 then next else within

unfoldable pub clean : List ℕ → List Name
unfolding clean_from
clean key = clean_from [] [] key

-- `strings.Contains(clean, "..")`
unfoldable pub has_dots : Name → Bool
has_dots [] = false
has_dots (x ∷ []) = false
has_dots (x ∷ y ∷ n) = (x == 46 && y == 46) || has_dots (y ∷ n)

unfoldable pub any_dots : List Name → Bool
unfolding has_dots
any_dots [] = false
any_dots (n ∷ up) = has_dots n || any_dots up

abbrev pub is_hex_byte : ℕ → Bool
is_hex_byte c = (leb 48 c && leb c 57) || (leb 97 c && leb c 102)

-- `isHex` of the first four bytes, and the two directories that they name.
unfoldable pub shard_names : Name → List Name
shard_names (a ∷ b ∷ c ∷ d ∷ rest) =
    if leb 16 (length (a ∷ b ∷ c ∷ d ∷ rest))
      && (is_hex_byte a && is_hex_byte b && is_hex_byte c && is_hex_byte d)
    then (c ∷ d ∷ []) ∷ (a ∷ b ∷ []) ∷ []
    else []
shard_names _ = []

-- The directories of a cleaned key between the root and the file, with the shard.
abbrev pub sharded : List Name → List Name
sharded [] = []
sharded (base ∷ dirs) = base ∷ (shard_names base ++ dirs)

-- `path`, below the root: `none` is an error.
unfoldable pub path : List ℕ → Option (List Name)
unfolding clean any_dots shard_names
path key = if any_dots (clean key) then none else some (sharded (clean key))

abbrev pub same_path : List Name → List Name → Bool
same_path [] [] = true
same_path [] (y ∷ b) = false
same_path (x ∷ a) [] = false
same_path (x ∷ a) (y ∷ b) = let rest = same_path a b in same_name x y && rest

-- The files, by their paths.
abbrev pub Files : Type 0
Files = List (List Name × List ℕ)

unfoldable pub find_file : List Name → Files → Option (List ℕ)
find_file p [] = none
find_file p ((q, b) ∷ fs) = let rest = find_file p fs in if same_path q p then some b else rest

-- `Put`: an error, of the key or of the disk, leaves the files as they were, since a blob is written
-- to a temporary file that is renamed.
unfoldable pub put : Bool → List ℕ → List ℕ → Files → Files × Bool
unfolding path
put disk_ok key b fs = elim (path key) [
  | none ↦ (fs, false)
  | some p ↦ if disk_ok then ((p, b) ∷ fs, true) else (fs, false)
]

-- `Get`, read to its end; `GetToFile` writes that to a file.
unfoldable pub get : List ℕ → Files → Option (List ℕ)
unfolding path find_file
get key fs = elim (path key) [ none ↦ none | some p ↦ find_file p fs ]

-- A path leads to a name where that is its own or one of the directories above it.
abbrev pub leads_to : List Name → List Name → Bool
leads_to p [] = same_path [] p
leads_to p (x ∷ q) = same_path (x ∷ q) p || leads_to p q

-- Directories are there because files are in them.
unfoldable pub any_leads_to : List Name → Files → Bool
any_leads_to p [] = false
any_leads_to p ((q, b) ∷ fs) = leads_to p q || any_leads_to p fs

-- `Exists`, of a file or a directory: `none` is an error.
unfoldable pub exists : List ℕ → Files → Option Bool
unfolding path any_leads_to
exists key fs = elim (path key) [ none ↦ none | some p ↦ some (any_leads_to p fs) ]
