-- ===== src/Langs/Registry.antt =====
-- internal/langs/registry.go. The map of manifests is an association list.
use arena.Common.{
  String, str_eq, str_eq_iff, Bool, true, false, ◌&&◌, ◌||◌, not, Option, none, some, List, [], ◌∷◌,
  ◌≡◌, ◌≢◌, refl, ◌⊎◌, inl, inr, arith, Bool-cases, Option-cases, subst, if◌then◌else◌,
}
use arena.Core.Limits.{Multiplier}
use arena.Langs.Manifest.{Manifest, ManifestError, validate, is_empty}

-- A directory entry: whether it is a directory, its path.Ext, and what the file holds: `none` if it
-- cannot be read, `some none` if it is no YAML of a manifest.
pub record Entry (F : Type 0) : Type 0 where
  pub is_dir : Bool
  pub ext : String
  pub content : Option (Option (Manifest F))

abbrev pub Registry : Type 0 → Type 0
Registry F = List (String × Manifest F)

pub data LoadError : Type 0 where
  cannot_read cannot_parse none_enabled : LoadError
  invalid : ManifestError → LoadError
  duplicate : String → LoadError

unfoldable pub get : {F : Type 0} → Registry F → String → Option (Manifest F)
get [] id = none
get ((k, m) ∷ r) id = if str_eq k id then some m else get r id

module _ (fl : Multiplier) where
  open fl use {Float, at_most_zero}

  -- `r.m[m.ID] = &m`, for a manifest that is valid.
  unfoldable pub register : Registry Float → Manifest Float → LoadError ⊎ Registry Float
  register r m =
      if not m.enabled
      then inr r
      else elim (get r m.id) [ some old ↦ inl (duplicate m.id) | none ↦ inr ((m.id, m) ∷ r) ]

  unfoldable pub load_manifest : Registry Float → Manifest Float → LoadError ⊎ Registry Float
  unfolding register
  load_manifest r m = elim (validate fl m) [ inl e ↦ inl (invalid e) | inr v ↦ register r v ]

  unfoldable pub load_file :
      Registry Float → Option (Option (Manifest Float)) → LoadError ⊎ Registry Float
  unfolding load_manifest
  load_file r none = inl cannot_read
  load_file r (some none) = inl cannot_parse
  load_file r (some (some m)) = load_manifest r m

  unfoldable pub load_entry : Registry Float → Entry Float → LoadError ⊎ Registry Float
  unfolding load_file
  load_entry r e =
      if e.is_dir || (not (str_eq e.ext ".yaml") && not (str_eq e.ext ".yml"))
      then inr r
      else load_file r e.content

  unfoldable pub load_entries : Registry Float → List (Entry Float) → LoadError ⊎ Registry Float
  unfolding load_entry
  load_entries r [] = inr r
  load_entries r (e ∷ es) = elim (load_entry r e) [
    | inl err ↦ inl err
    | inr r' ↦ load_entries r' es
  ]

  abbrev pub not_empty : Registry Float → LoadError ⊎ Registry Float
  not_empty [] = inl none_enabled
  not_empty (x ∷ r) = inr (x ∷ r)

  unfoldable pub load_fs : Registry Float → List (Entry Float) → LoadError ⊎ Registry Float
  unfolding load_entries
  load_fs r entries = elim (load_entries r entries) [ inl err ↦ inl err | inr r' ↦ not_empty r' ]

  -- What a runner can rely on in a manifest.
  pub record IsSound (m : Manifest Float) : Type 0 where
    pub has_id : m.id ≢ ""
    pub has_image : m.image ≢ ""
    pub has_source_file : m.source_file ≢ ""
    pub has_run : is_empty m.run ≡ false
    pub is_enabled : m.enabled ≡ true
    pub positive : at_most_zero m.time_multiplier ≡ false

  -- Every manifest is found under its own id, and is sound.
  abbrev pub IsLoaded : Registry Float → Type 0
  IsLoaded [] = Unit
  IsLoaded ((k, m) ∷ r) = (k ≡ m.id) × (get r k ≡ none) × IsSound m × IsLoaded r

  module _ (one_positive : at_most_zero fl.one ≡ false) where
    validate-IsSound : (m v : Manifest Float) → validate fl m ≡ inr v → v.enabled ≡ true → IsSound v
    unfolding validate
    validate-IsSound m v h e = record {
      has_id = ground (arith, str_eq_iff m.id "");
      has_image = ground (arith, str_eq_iff m.image "");
      has_source_file = ground (arith, str_eq_iff m.source_file "");
      has_run = ground arith;
      is_enabled = e;
      positive = ground arith;
    }

    register-IsLoaded :
        (r r' : Registry Float) (m : Manifest Float)
        → (m.enabled ≡ true → IsSound m)
        → register r m ≡ inr r'
        → IsLoaded r
        → IsLoaded r'
    unfolding register
    register-IsLoaded r r' m s h l = elim (Bool-cases m.enabled) [
      | inr off ↦ let same : r ≡ r' = ground arith in subst IsLoaded same l
      | inl on ↦ elim (Option-cases (get r m.id)) [
        | inl free ↦
            let added : (m.id, m) ∷ r ≡ r' = ground arith in
            subst IsLoaded added (refl, free, s on, l)
        | inr (old, taken) ↦ absurd (ground arith)
      ]
    ]

    load_manifest-IsLoaded :
        (r r' : Registry Float) (m : Manifest Float)
        → load_manifest r m ≡ inr r'
        → IsLoaded r
        → IsLoaded r'
    unfolding load_manifest
    load_manifest-IsLoaded r r' m h l = go (validate fl m) refl h
      where
        go :
            (x : ManifestError ⊎ Manifest Float)
            → validate fl m ≡ x
            → elim x as (λ _. LoadError ⊎ Registry Float) [
              | inl e ↦ inl (invalid e)
              | inr v ↦ register r v
            ]
              ≡ inr r'
            → IsLoaded r'
        go (inl e) v h = absurd (cc)
        go (inr w) v h = register-IsLoaded r r' w (validate-IsSound m w v) h l

    load_entry-IsLoaded :
        (r r' : Registry Float) (e : Entry Float)
        → load_entry r e ≡ inr r'
        → IsLoaded r
        → IsLoaded r'
    unfolding load_entry
    load_entry-IsLoaded r r' e h l =
        elim (Bool-cases (e.is_dir || (not (str_eq e.ext ".yaml") && not (str_eq e.ext ".yml")))) [
          | inl skip ↦ subst IsLoaded (skipped skip) l
          | inr file ↦ from_file e.content (simp file at h)
        ]
      where
        skipped :
            (e.is_dir || (not (str_eq e.ext ".yaml") && not (str_eq e.ext ".yml"))) ≡ true → r ≡ r'
        skipped skip = ground arith

        from_file : (c : Option (Option (Manifest Float))) → load_file r c ≡ inr r' → IsLoaded r'
        from_file none h = absurd (unfold load_file in cc)
        from_file (some none) h = absurd (unfold load_file in cc)
        from_file (some (some m)) h = load_manifest-IsLoaded r r' m (unfold load_file in h) l

    load_entries-IsLoaded :
        (r r' : Registry Float) (es : List (Entry Float))
        → load_entries r es ≡ inr r'
        → IsLoaded r
        → IsLoaded r'
    unfolding load_entries
    load_entries-IsLoaded r r' [] h l = subst IsLoaded (ground arith) l
    load_entries-IsLoaded r r' (e ∷ es) h l =
        go (λ r'' k m. load_entries-IsLoaded r'' r' es k m) (load_entry r e) refl h
      where
        go :
            ((r'' : Registry Float) → load_entries r'' es ≡ inr r' → IsLoaded r'' → IsLoaded r')
            → (x : LoadError ⊎ Registry Float) → load_entry r e ≡ x
            → elim x as (λ _. LoadError ⊎ Registry Float) [
              | inl err ↦ inl err
              | inr r'' ↦ load_entries r'' es
            ]
              ≡ inr r'
            → IsLoaded r'
        go rec (inl err) v h = absurd (cc)
        go rec (inr r'') v h = rec r'' h (load_entry-IsLoaded r r'' e v l)

    -- A successful `LoadFS` of a directory into an empty registry gives at least one manifest; each
    -- is enabled and complete, has a multiplier of which `<= 0` does not hold (one that is positive
    -- or a NaN), and is found under its own id, which no other manifest has. (`1 <= 0` is false.)
    pub load_fs-IsLoaded :
        (r : Registry Float) (entries : List (Entry Float))
        → load_fs [] entries ≡ inr r
        → IsLoaded r × (r ≢ [])
    unfolding load_fs
    load_fs-IsLoaded r entries h = go (load_entries [] entries) refl h
      where
        nonempty : (s : Registry Float) → not_empty s ≡ inr r → (s ≡ r) × (r ≢ [])
        nonempty [] h = absurd (cc)
        nonempty (x ∷ s) h = (ground arith, λ e. ground arith)

        go :
            (x : LoadError ⊎ Registry Float)
            → load_entries [] entries ≡ x
            → elim x as (λ _. LoadError ⊎ Registry Float) [
              | inl err ↦ inl err
              | inr r' ↦ not_empty r'
            ]
              ≡ inr r
            → IsLoaded r × (r ≢ [])
        go (inl err) v h = absurd (cc)
        go (inr s) v h =
            let (same, filled) = nonempty s h in
            (subst IsLoaded same (load_entries-IsLoaded [] s entries v tt), filled)
