-- ===== src/Blob/Paths.antt =====
-- Where the paths of blobs lead.
use arena.Common.{
  ℕ, ◌==◌, leb, Bool, true, false, ◌&&◌, ◌||◌, ◌≡◌, refl, ap, sym, subst, ◌∙◌, some, List, [], ◌∷◌,
  ◌++◌, length, All, All-append, Bool-cases, inl, inr, arith,
}
use arena.Blob.{
  Name, same_name, dot, dots, above, is_nothing, enter, reversed, clean_from, clean, any_dots,
  is_hex_byte, shard_names, sharded, path,
}

unfoldable pub has_slash : Name → Bool
has_slash [] = false
has_slash (x ∷ n) = x == 47 || has_slash n

-- A name of an entry in a directory, which leads neither up nor elsewhere.
abbrev pub IsEntry : Name → Type 0
IsEntry n =
    (is_nothing n ≡ false)
    × (same_name n dot ≡ false)
    × (same_name n dots ≡ false)
    × (has_slash n ≡ false)

enter-IsEntry :
    (up : List Name) (n : Name) → All IsEntry up → has_slash n ≡ false → All IsEntry (enter up n)
unfolding enter
enter-IsEntry up n a h = elim (Bool-cases (is_nothing n || same_name n dot)) [
  | inl e ↦ rw e a
  | inr e ↦ elim (Bool-cases (same_name n dots)) [
    | inl f ↦ rw (e, f) (up_IsEntry up a)
    | inr f ↦ rw (e, f) ((ground arith, ground arith, f, h), a)
  ]
]
  where
    up_IsEntry : (up : List Name) → All IsEntry up → All IsEntry (above up)
    up_IsEntry [] a = tt
    up_IsEntry (n ∷ up) (e, a) = a

reversed-has_slash :
    (n acc : Name)
    → has_slash n ≡ false
    → has_slash acc ≡ false
    → has_slash (reversed n acc) ≡ false
unfolding reversed has_slash
reversed-has_slash [] acc h k = k
reversed-has_slash (x ∷ n) acc h k = reversed-has_slash n (x ∷ acc) (ground arith) (ground arith)

clean_from-IsEntry :
    (up : List Name) (n : Name) (key : List ℕ)
    → All IsEntry up
    → has_slash n ≡ false
    → All IsEntry (clean_from up n key)
unfolding clean_from has_slash
clean_from-IsEntry up n [] a h = enter-IsEntry up (reversed n []) a (reversed-has_slash n [] h refl)
clean_from-IsEntry up n (b ∷ key) a h = elim (Bool-cases (b == 47)) [
  | inl e ↦ rw e (
      clean_from-IsEntry (enter up (reversed n [])) [] key
        (enter-IsEntry up (reversed n []) a (reversed-has_slash n [] h refl)) refl)
  | inr e ↦ rw e (clean_from-IsEntry up (b ∷ n) key a (rw (e, h)))
]

hex_pair-IsEntry : (a b : ℕ) → is_hex_byte a ≡ true → is_hex_byte b ≡ true → IsEntry (a ∷ b ∷ [])
unfolding has_slash
hex_pair-IsEntry a b h k = (refl, ground arith, ground arith, ground arith)

shard_names-IsEntry : (n : Name) → All IsEntry (shard_names n)
unfolding shard_names
shard_names-IsEntry [] = tt
shard_names-IsEntry (a ∷ []) = tt
shard_names-IsEntry (a ∷ b ∷ []) = tt
shard_names-IsEntry (a ∷ b ∷ c ∷ []) = tt
shard_names-IsEntry (a ∷ b ∷ c ∷ d ∷ rest) =
    elim (Bool-cases (
      leb 16 (length (a ∷ b ∷ c ∷ d ∷ rest))
      && (is_hex_byte a && is_hex_byte b && is_hex_byte c && is_hex_byte d))) [
        | inr e ↦ rw e tt
        | inl e ↦ rw e (
          hex_pair-IsEntry c d (ground arith) (ground arith),
          (hex_pair-IsEntry a b (ground arith) (ground arith), tt),
        )
      ]

sharded-IsEntry : (up : List Name) → All IsEntry up → All IsEntry (sharded up)
sharded-IsEntry [] a = tt
sharded-IsEntry (n ∷ up) (e, a) =
    (e, All-append IsEntry (shard_names n) up (shard_names-IsEntry n) a)

path-sharded : (key : List ℕ) (p : List Name) → path key ≡ some p → sharded (clean key) ≡ p
unfolding path
path-sharded key p e = elim (Bool-cases (any_dots (clean key))) [
  | inl f ↦ absurd (ground arith)
  | inr f ↦ ground arith
]

-- Whatever the key is, a path leads down from the root: each name on it is the name of an entry of a
-- directory, without a slash, and neither empty nor "." nor "..".
pub path-IsEntry : (key : List ℕ) (p : List Name) → path key ≡ some p → All IsEntry p
unfolding clean
path-IsEntry key p e =
    subst (All IsEntry) (path-sharded key p e)
      (sharded-IsEntry (clean key) (clean_from-IsEntry [] [] key tt (unfold has_slash in refl)))

behind : List Name → List Name → List Name
behind [] p = p
behind (x ∷ xs) [] = []
behind (x ∷ xs) (y ∷ p) = behind xs p

behind-append : (xs ys : List Name) → behind xs (xs ++ ys) ≡ ys
unfolding behind
behind-append [] ys = refl
behind-append (x ∷ xs) ys = behind-append xs ys

-- What a path was made of.
unsharded : List Name → List Name
unsharded [] = []
unsharded (n ∷ p) = n ∷ behind (shard_names n) p

unsharded-sharded : (up : List Name) → unsharded (sharded up) ≡ up
unfolding unsharded
unsharded-sharded [] = refl
unsharded-sharded (n ∷ up) = ap (λ q. n ∷ q) (behind-append (shard_names n) up)

-- Two keys have one path only if they clean to the same.
pub path-clean :
    (key key' : List ℕ) (p : List Name)
    → path key ≡ some p
    → path key' ≡ some p
    → clean key ≡ clean key'
path-clean key key' p e e' =
    sym (unsharded-sharded (clean key))
    ∙ ap unsharded (path-sharded key p e ∙ sym (path-sharded key' p e'))
    ∙ unsharded-sharded (clean key')
