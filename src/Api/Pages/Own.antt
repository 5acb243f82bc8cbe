-- ===== src/Api/Pages/Own.antt =====
-- What a participant can read.
use arena.Common.{
  ℕ, zero, suc, ◌-◌, ◌+◌, ◌≤ℤ◌, ◌≤◌, min, ℤ, pos, pos_part, ltb_ℤ, String, str_eq, str_eq_iff, Bool,
  ◌&&◌, ◌||◌, if◌then◌else◌, sym, true, false, ◌≡◌, refl, ap, subst, ◌∙◌, Option, none, some, List,
  [], ◌∷◌, ◌++◌, length, length-take, take, filter, All, Sorted, arith, Bool-cases, inl, inr,
  insert_by, order_by, order_by-Sorted,
}
use arena.Core.Job.{TestResult}
use arena.Api.Auth.{Claims, User}
use arena.Store.{Row, Db, ok}
use arena.Api.Pages.{
  get_submission, handle_get_submission, shown, may_read, SubmissionFilter, Listing, join_users,
  is_wanted, newest_first, behind, limit_of, list_submissions, ListRequest, filter_of, listed,
  handle_list_submissions,
}

newest_first_total : (x y : Listing) → newest_first x y ≡ false → newest_first y x ≡ true
unfolding newest_first
newest_first_total x y h = ground arith

newest_first_trans :
    (x y z : Listing) → newest_first x y ≡ true → newest_first y z ≡ true → newest_first x z ≡ true
unfolding newest_first
newest_first_trans x y z h k = ground arith

length-behind : (n : ℕ) (xs : List Listing) → length (behind n xs) ≡ length xs - n
unfolding behind
length-behind zero xs = omega arith
length-behind (suc n) [] = omega arith
length-behind (suc n) (x ∷ xs) = omega (arith, length-behind n xs)

length-insert_by :
    (x : Listing) (xs : List Listing) → length (insert_by newest_first x xs) ≡ suc (length xs)
unfolding insert_by
length-insert_by x [] = refl
length-insert_by x (y ∷ xs) = ground (arith, length-insert_by x xs)

length-order_by : (xs : List Listing) → length (order_by newest_first xs) ≡ length xs
unfolding order_by
length-order_by [] = refl
length-order_by (x ∷ xs) =
    length-insert_by x (order_by newest_first xs) ∙ ap suc (length-order_by xs)

limit_of-≤ : (n : ℤ) → limit_of n ≤ 100
unfolding limit_of
limit_of-≤ n = ground arith

-- The newest first.
abbrev pub Newest : List Listing → Type 0
Newest [] = Unit
Newest (x ∷ xs) = All (λ y. y.created_at ≤ℤ x.created_at) xs × Newest xs

-- The rows that a participant asks for: their own, of one problem and one contest if these are named.
abbrev pub is_asked : Claims → ListRequest → Listing → Bool
is_asked u r x =
    str_eq x.user_id u.user_id
    && (str_eq r.problem "" || str_eq x.problem_id r.problem)
    && (str_eq r.contest "" || str_eq x.contest_id r.contest)

-- All the rows in some order, the newest first, of which the page is a part: as many rows as the
-- offset says stand in front of it, and it ends at the limit of the page or with the last row.
pub record IsPage (limit offset : ℕ) (all page : List Listing) : Type 0 where
  pub front : List Listing
  pub back : List Listing
  pub newest : Newest (front ++ (page ++ back))
  pub same_rows :
      (test : Listing → Bool)
      → length (filter test (front ++ (page ++ back))) ≡ length (filter test all)
  pub skipped : length front ≡ min offset (length all)
  pub size : length page ≡ min limit (length all - offset)
  pub short : length page ≤ 100

newest_first-≤ : (x y : Listing) → newest_first x y ≡ true → y.created_at ≤ℤ x.created_at
unfolding newest_first
newest_first-≤ x y h = ground arith

Sorted-Newest : (xs : List Listing) → Sorted newest_first xs → Newest xs
Sorted-Newest [] h = tt
Sorted-Newest (x ∷ xs) h = (older xs h.0, Sorted-Newest xs h.1)
  where
    older :
        (ys : List Listing)
        → All (λ y. newest_first x y ≡ true) ys
        → All (λ y. y.created_at ≤ℤ x.created_at) ys
    older [] h = tt
    older (y ∷ ys) h = (newest_first-≤ x y h.0, older ys h.1)

take-behind : (n : ℕ) (xs : List Listing) → take n xs ++ behind n xs ≡ xs
unfolding behind
take-behind zero xs = refl
take-behind (suc n) [] = refl
take-behind (suc n) (x ∷ xs) = ap (λ ys. x ∷ ys) (take-behind n xs)

module _ (test : Listing → Bool) where
  length-filter-insert_by :
      (x : Listing) (xs : List Listing)
      → length (filter test (insert_by newest_first x xs)) ≡ length (filter test (x ∷ xs))
  unfolding insert_by
  length-filter-insert_by x [] = refl
  length-filter-insert_by x (y ∷ xs) = ground (arith, length-filter-insert_by x xs)

  length-filter-cons :
      (x : Listing) (xs : List Listing)
      → length (filter test (x ∷ xs)) ≡ (if test x then 1 else 0) + length (filter test xs)
  length-filter-cons x xs = ground arith

  length-filter-order_by :
      (xs : List Listing)
      → length (filter test (order_by newest_first xs)) ≡ length (filter test xs)
  unfolding order_by
  length-filter-order_by [] = refl
  length-filter-order_by (x ∷ xs) = omega (
    arith,
    length-filter-insert_by x (order_by newest_first xs),
    length-filter-cons x (order_by newest_first xs),
    length-filter-cons x xs,
    length-filter-order_by xs,
  )

filter-same :
    (p q : Listing → Bool) (xs : List Listing)
    → ((x : Listing) → p x ≡ q x)
    → filter p xs ≡ filter q xs
filter-same p q [] h = refl
filter-same p q (x ∷ xs) h = ground (arith, h x, filter-same p q xs h)

list_submissions-IsPage :
    (users : List User) (db : Db) (f : SubmissionFilter) (offset : ℕ)
    → f.offset ≡ pos offset
    → (page : List Listing) × (list_submissions users db f ≡ ok page)
      × IsPage (limit_of f.limit) offset (filter (is_wanted f) (join_users users db.rows)) page
unfolding list_submissions
list_submissions-IsPage users db f offset o =
    let all = filter (is_wanted f) (join_users users db.rows) in
    let ordered = order_by newest_first all in
    let rest = behind offset ordered in
    let n = limit_of f.limit in
    let size = length-take n rest in
    let allowed : ltb_ℤ f.offset (pos 0) ≡ false = ground (arith, o) in
    let skipped : pos_part f.offset ≡ offset = rw o refl in
    let whole : take offset ordered ++ (take n rest ++ behind n rest) ≡ ordered =
      ap (λ ys. take offset ordered ++ ys) (take-behind n rest) ∙ take-behind offset ordered in
    (
      take n rest,
      rw (allowed, skipped) refl,
      record {
        front = take offset ordered;
        back = behind n rest;
        newest = subst Newest (sym whole) (
            Sorted-Newest ordered
              (order_by-Sorted newest_first newest_first_total newest_first_trans all));
        same_rows =
            λ test. ap (λ ys. length (filter test ys)) whole ∙ length-filter-order_by test all;
        skipped = omega (arith, length-take offset ordered, length-order_by all);
        size = omega (arith, size, length-behind offset ordered, length-order_by all);
        short = omega (arith, size, limit_of-≤ f.limit);
      },
    )

is_wanted-asked :
    (u : Claims) (r : ListRequest) (x : Listing)
    → str_eq u.role "admin" ≡ false
    → str_eq u.user_id "" ≡ false
    → is_wanted (filter_of u r) x ≡ is_asked u r x
unfolding is_wanted filter_of
is_wanted-asked u r x admin known = ground (arith, admin, known)

-- What is shown of a submission is the participant’s own.
abbrev pub ShowsOwn : String → Option (Row × List TestResult) → Type 0
ShowsOwn owner none = Unit
ShowsOwn owner (some sub) = sub.0.user_id ≡ owner

shown-ShowsOwn :
    (u : Claims) (sub : Option (Row × List TestResult))
    → str_eq u.role "admin" ≡ false
    → str_eq u.role "setter" ≡ false
    → ShowsOwn u.user_id (shown u sub).1
unfolding shown
shown-ShowsOwn u none h k = tt
shown-ShowsOwn u (some sub) h k = elim (Bool-cases (may_read u sub.0)) [
  | inl e ↦ rw e (ground (arith, h, k, e, str_eq_iff sub.0.user_id u.user_id))
  | inr e ↦ rw e tt
]

-- Who is neither admin nor setter reads the own submissions only. `handleGetSubmission` shows no
-- submission of another user, whatever the id. `handleListSubmissions` answers 200 with a part of
-- the own submissions of the problem and the contest that the request names, if any, whichever user
-- it names: of these rows, the newest first, those behind the offset up to the limit, which is at
-- most 100. For a token with a user id and an offset that is not negative.
pub handle_submissions-own :
    (u : Claims) (users : List User) (db : Db) (id : String) (r : ListRequest) (offset : ℕ)
    → str_eq u.role "admin" ≡ false
    → str_eq u.role "setter" ≡ false
    → str_eq u.user_id "" ≡ false
    → r.offset ≡ pos offset
    → ShowsOwn u.user_id (handle_get_submission u db id).1
      × (page : List Listing) × (handle_list_submissions u users db r ≡ (200, page))
      × IsPage (limit_of r.limit) offset (filter (is_asked u r) (join_users users db.rows)) page
unfolding handle_get_submission handle_list_submissions listed
handle_submissions-own u users db id r offset admin setter known o =
    let same =
      filter-same (is_wanted (filter_of u r)) (is_asked u r) (join_users users db.rows)
        (λ x. is_wanted-asked u r x admin known) in
    let (page, answer, good) =
      list_submissions-IsPage users db (filter_of u r) offset (unfold filter_of in o) in
    (
      shown-ShowsOwn u (get_submission db id) admin setter,
      page,
      ap listed answer,
      subst (λ all. IsPage (limit_of r.limit) offset all page) same (unfold filter_of in good),
    )
