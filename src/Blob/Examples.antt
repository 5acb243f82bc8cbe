-- ===== src/Blob/Examples.antt =====
-- Tests of the blob store, and its theorems at concrete keys.
use arena.Common.{ℕ, true, ◌≡◌, refl, none, some, List, [], ◌∷◌, All, if◌then◌else◌}
use arena.Blob.{
  Name, same_path, clean, clean_from, enter, reversed, has_dots, any_dots, shard_names, path, Files,
  put, get,
}
use arena.Blob.Paths.{IsEntry, path-IsEntry}
use arena.Blob.Files.{get-put}

-- "/../t/./0.in" and "t//0.in"
abbrev climbing : List ℕ
climbing = 47 ∷ 46 ∷ 46 ∷ 47 ∷ 116 ∷ 47 ∷ 46 ∷ 47 ∷ 48 ∷ 46 ∷ 105 ∷ 110 ∷ []

abbrev plain : List ℕ
plain = 116 ∷ 47 ∷ 47 ∷ 48 ∷ 46 ∷ 105 ∷ 110 ∷ []

abbrev input_path : List Name
input_path = (48 ∷ 46 ∷ 105 ∷ 110 ∷ []) ∷ (116 ∷ []) ∷ []

path-climbing : path climbing ≡ some input_path
unfolding path clean clean_from enter reversed any_dots has_dots shard_names
path-climbing = refl

path-plain : path plain ≡ some input_path
unfolding path clean clean_from enter reversed any_dots has_dots shard_names
path-plain = refl

-- "a..b" is no traversal and is refused all the same.
dots_within : path (97 ∷ 46 ∷ 46 ∷ 98 ∷ []) ≡ none
unfolding path clean clean_from enter reversed any_dots has_dots
dots_within = refl

-- "src/" and sixteen hexadecimal digits.
path_with_shard :
    path (
      115 ∷ 47 ∷ 97 ∷ 98 ∷ 99 ∷ 100 ∷ 48 ∷ 48 ∷ 48 ∷ 48 ∷ 48 ∷ 48 ∷ 48 ∷ 48 ∷ 48 ∷ 48 ∷ 48 ∷ 48
      ∷ [])
    ≡ some (
        (97 ∷ 98 ∷ 99 ∷ 100 ∷ 48 ∷ 48 ∷ 48 ∷ 48 ∷ 48 ∷ 48 ∷ 48 ∷ 48 ∷ 48 ∷ 48 ∷ 48 ∷ 48 ∷ [])
        ∷ (99 ∷ 100 ∷ [])
        ∷ (97 ∷ 98 ∷ [])
        ∷ (115 ∷ [])
        ∷ [])
unfolding path clean clean_from enter reversed any_dots has_dots shard_names
path_with_shard = refl

path-IsEntry_example : All IsEntry input_path
path-IsEntry_example = path-IsEntry climbing input_path path-climbing

abbrev one_blob : Files
one_blob = (input_path, 7 ∷ []) ∷ []

get-put_example :
    get plain one_blob
    ≡ (if same_path (clean climbing) (clean plain) then some (7 ∷ []) else get plain [])
get-put_example = get-put true climbing plain (7 ∷ []) [] one_blob stored
  where
    stored : put true climbing (7 ∷ []) [] ≡ (one_blob, true)
    stored = unfold put path clean clean_from enter reversed any_dots has_dots shard_names in refl
