-- ===== src/Judge/Box.antt =====
-- The workspace of internal/judge/judge.go: a directory tree, its stash and its restoration. The
-- file system is taken to answer, and a directory is not copied over a file of its name.
use arena.Common.{
  ℕ, leb, length, take, String, str_eq, str_eq_iff, Bool, true, false, ◌||◌, ◌≡◌, refl, ap, Option,
  none, some, List, [], ◌∷◌, ◌++◌, if◌then◌else◌, arith, inl, inr, Bool-cases,
}

-- The entries of a directory: files with their bytes, and directories.
pub data Dir : Type 0 where
  nil : Dir
  file : String → List ℕ → Dir → Dir
  dir : String → Dir → Dir → Dir

unfoldable pub names : Dir → List String
names nil = []
names (file n b rest) = n ∷ names rest
names (dir n d rest) = n ∷ names rest

-- `os.RemoveAll` of one entry.
unfoldable pub remove : String → Dir → Dir
remove n nil = nil
remove n (file m b rest) = let r = remove n rest in if str_eq m n then r else file m b r
remove n (dir m d rest) = let r = remove n rest in if str_eq m n then r else dir m d r

unfoldable pub remove_names : List String → Dir → Dir
unfolding remove
remove_names [] box = box
remove_names (n ∷ ns) box = remove_names ns (remove n box)

unfoldable pub read_file : String → Dir → Option (List ℕ)
read_file n nil = none
read_file n (file m b rest) = if str_eq m n then some b else read_file n rest
read_file n (dir m d rest) = if str_eq m n then none else read_file n rest

unfoldable pub sub_dir : String → Dir → Dir
sub_dir n nil = nil
sub_dir n (file m b rest) = sub_dir n rest
sub_dir n (dir m d rest) = if str_eq m n then d else sub_dir n rest

abbrev pub write_file : String → List ℕ → Dir → Dir
write_file n b box = file n b (remove n box)

abbrev pub write_dir : String → Dir → Dir → Dir
write_dir n d box = dir n d (remove n box)

-- The files of an earlier run that are not restored.
unfoldable pub is_artefact : String → Bool
is_artefact n = str_eq n "stdout" || str_eq n "stderr" || str_eq n "meta.json" || str_eq n "input"

unfoldable pub copy_tree : Dir → Dir → Dir
unfolding is_artefact sub_dir remove
copy_tree nil dst = dst
copy_tree (file n b rest) dst = copy_tree rest (if is_artefact n then dst else write_file n b dst)
copy_tree (dir n d rest) dst = copy_tree rest (write_dir n (copy_tree d (sub_dir n dst)) dst)

unfoldable pub reset_box : Dir → Dir → Dir
unfolding names remove_names copy_tree
reset_box box stash = copy_tree stash (remove_names (names box) box)

-- `readCapped`: at most `max` bytes, and a mark if any are left out; empty if there is no file.
abbrev pub capped : Option (List ℕ) → ℕ → List ℕ
capped none max = []
capped (some b) max =
    if leb (length b) max
    then b
    else take max b
      ++ 10 ∷ 46 ∷ 46 ∷ 46 ∷ 32 ∷ 91 ∷ 116 ∷ 114 ∷ 117 ∷ 110 ∷ 99 ∷ 97 ∷ 116 ∷ 101 ∷ 100 ∷ 93 ∷ []

unfoldable pub read_capped : String → Dir → ℕ → List ℕ
unfolding read_file
read_capped n box max = capped (read_file n box) max

has_name : String → List String → Bool
has_name n [] = false
has_name n (m ∷ ns) = str_eq m n || has_name n ns

-- All entries of a directory have a name of the list.
abbrev Covered : List String → Dir → Type 0
Covered ns nil = Unit
Covered ns (file n b rest) = (has_name n ns ≡ true) × Covered ns rest
Covered ns (dir n d rest) = (has_name n ns ≡ true) × Covered ns rest

Covered-more : (n : String) (ns : List String) (box : Dir) → Covered ns box → Covered (n ∷ ns) box
unfolding has_name
Covered-more n ns nil c = tt
Covered-more n ns (file m b rest) (h, c) = (ground arith, Covered-more n ns rest c)
Covered-more n ns (dir m d rest) (h, c) = (ground arith, Covered-more n ns rest c)

names-Covered : (box : Dir) → Covered (names box) box
unfolding names has_name
names-Covered nil = tt
names-Covered (file n b rest) =
    (ground (arith, str_eq_iff n n), Covered-more n (names rest) rest (names-Covered rest))
names-Covered (dir n d rest) =
    (ground (arith, str_eq_iff n n), Covered-more n (names rest) rest (names-Covered rest))

remove-Covered :
    (n : String) (ns : List String) (box : Dir) → Covered (n ∷ ns) box → Covered ns (remove n box)
unfolding remove has_name
remove-Covered n ns nil c = tt
remove-Covered n ns (file m b rest) (h, c) = elim (Bool-cases (str_eq m n)) [
  | inl e ↦ rw e (remove-Covered n ns rest c)
  | inr e ↦ rw e (ground (arith, str_eq_iff m n, str_eq_iff n m), remove-Covered n ns rest c)
]
remove-Covered n ns (dir m d rest) (h, c) = elim (Bool-cases (str_eq m n)) [
  | inl e ↦ rw e (remove-Covered n ns rest c)
  | inr e ↦ rw e (ground (arith, str_eq_iff m n, str_eq_iff n m), remove-Covered n ns rest c)
]

remove_names-Covered : (ns : List String) (box : Dir) → Covered ns box → remove_names ns box ≡ nil
unfolding remove_names has_name
remove_names-Covered [] nil c = refl
remove_names-Covered [] (file m b rest) (h, c) = absurd (ground arith)
remove_names-Covered [] (dir m d rest) (h, c) = absurd (ground arith)
remove_names-Covered (n ∷ ns) box c =
    remove_names-Covered ns (remove n box) (remove-Covered n ns box c)

-- Whatever is in the box, it is restored to the copy of the stash, and nothing else.
pub reset_box-copy_tree : (box stash : Dir) → reset_box box stash ≡ copy_tree stash nil
unfolding reset_box
reset_box-copy_tree box stash =
    ap (copy_tree stash) (remove_names-Covered (names box) box (names-Covered box))
