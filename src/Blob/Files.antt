-- ===== src/Blob/Files.antt =====
-- What is read from the store after a write.
use arena.Common.{
  ℕ, ==_iff, Bool, true, false, ◌≡◌, ◌↔◌, refl, ap, sym, ◌∙◌, none, some, List, [], ◌∷◌, Bool-cases,
  Option-cases, inl, inr, if◌then◌else◌, arith,
}
use arena.Blob.{
  Name, same_name, same_path, clean, any_dots, sharded, path, Files, find_file, put, get,
}
use arena.Blob.Paths.{path-clean}

same_name_iff : (a b : Name) → (same_name a b ≡ true) ↔ (a ≡ b)
same_name_iff [] [] = (λ h. refl, λ h. refl)
same_name_iff [] (y ∷ b) = (λ h. absurd (ground arith), λ h. absurd (cc))
same_name_iff (x ∷ a) [] = (λ h. absurd (ground arith), λ h. absurd (cc))
same_name_iff (x ∷ a) (y ∷ b) = ground (arith, ==_iff x y, same_name_iff a b)

pub same_path_iff : (p q : List Name) → (same_path p q ≡ true) ↔ (p ≡ q)
same_path_iff [] [] = (λ h. refl, λ h. refl)
same_path_iff [] (y ∷ q) = (λ h. absurd (ground arith), λ h. absurd (cc))
same_path_iff (x ∷ p) [] = (λ h. absurd (ground arith), λ h. absurd (cc))
same_path_iff (x ∷ p) (y ∷ q) = ground (arith, same_name_iff x y, same_path_iff p q)

get-path :
    (key : List ℕ) (p : List Name) (fs : Files) → path key ≡ some p → get key fs ≡ find_file p fs
unfolding get
get-path key p fs e = ground arith

get_refused : (key : List ℕ) (fs : Files) → path key ≡ none → get key fs ≡ none
unfolding get
get_refused key fs e = ground arith

put-path :
    (disk_ok : Bool) (key b : List ℕ) (fs fs' : Files)
    → put disk_ok key b fs ≡ (fs', true)
    → (p : List Name) × (path key ≡ some p) × (fs' ≡ (p, b) ∷ fs)
unfolding put
put-path disk_ok key b fs fs' e = elim (Option-cases (path key)) [
  | inl f ↦ absurd (ground arith)
  | inr (p, f) ↦ (p, f, ground arith)
]

clean-path : (key key' : List ℕ) → clean key ≡ clean key' → path key ≡ path key'
unfolding path
clean-path key key' e = ap (λ c. if any_dots c then none else some (sharded c)) e

-- The paths of two keys are the same exactly if the keys clean to the same.
same_clean :
    (key key' : List ℕ) (p p' : List Name)
    → path key ≡ some p
    → path key' ≡ some p'
    → same_path (clean key) (clean key') ≡ same_path p p'
same_clean key key' p p' f g = elim (Bool-cases (same_path p p')) [
  | inl e ↦
      let same = (same_path_iff p p').0 e in
      (same_path_iff (clean key) (clean key')).1 (path-clean key key' p f (g ∙ ap some (sym same)))
      ∙ sym e
  | inr e ↦ elim (Bool-cases (same_path (clean key) (clean key'))) [
    | inr h ↦ h ∙ sym e
    | inl h ↦
        let paths = clean-path key key' ((same_path_iff (clean key) (clean key')).0 h) in
        let both : some p ≡ some p' = sym f ∙ paths ∙ g in
        let same : same_path p p' ≡ true = (same_path_iff p p').1 (ground arith) in absurd (cc)
  ]
]

-- After a successful `Put`, `Get` of a key that cleans to the same returns what was written, and any
-- other key gives what it gave before.
pub get-put :
    (disk_ok : Bool) (key key' b : List ℕ) (fs fs' : Files)
    → put disk_ok key b fs ≡ (fs', true)
    → get key' fs' ≡ (if same_path (clean key) (clean key') then some b else get key' fs)
unfolding find_file
get-put disk_ok key key' b fs fs' e =
    let (p, f, same) = put-path disk_ok key b fs fs' e in
    elim (Option-cases (path key')) [
      | inr (p', g) ↦
          ap (get key') same
          ∙ get-path key' p' ((p, b) ∷ fs) g
          ∙ ap (λ x. if same_path p p' then some b else x) (sym (get-path key' p' fs g))
          ∙ ap (λ t. if t then some b else get key' fs) (sym (same_clean key key' p p' f g))
      | inl g ↦
          get_refused key' fs' g
          ∙ sym (get_refused key' fs g)
          ∙ ap (λ t. if t then some b else get key' fs) (sym (other p f g))
    ]
  where
    other :
        (p : List Name)
        → path key ≡ some p
        → path key' ≡ none
        → same_path (clean key) (clean key') ≡ false
    other p f g = elim (Bool-cases (same_path (clean key) (clean key'))) [
      | inr h ↦ h
      | inl h ↦
          let paths = clean-path key key' ((same_path_iff (clean key) (clean key')).0 h) in
          absurd (cc)
    ]
