-- ===== src/Api/Pages/Examples.antt =====
-- A participant who asks for the submissions of another one.
use arena.Common.{pos, ◌≡◌, refl, List, [], ◌∷◌, filter}
use arena.Api.Auth.{Claims, User}
use arena.Store.{Db}
use arena.Store.Examples.{queued_row}
use arena.Api.Pages.{
  handle_get_submission, Listing, join_users, limit_of, ListRequest, handle_list_submissions,
}
use arena.Api.Pages.Own.{ShowsOwn, IsPage, is_asked, handle_submissions-own}

abbrev ada : User
ada = record {
  id = "ada";
  handle = "ada";
  email = "";
  password_hash = "";
  role = "participant";
  created_at = pos 0;
}

abbrev bob : User
bob = record ada { id = "bob"; handle = "bob" }

abbrev as_ada : Claims
as_ada = record {
  user_id = "ada";
  handle = "ada";
  role = "participant";
  subject = "ada";
  issued_at = pos 0;
  expires_at = pos 9;
  issuer = "arena";
}

abbrev two_users : Db
two_users = record {
  rows = queued_row ∷ record queued_row { id = "s2"; user_id = "bob" } ∷ [];
  tests = [];
  cache = [];
}

abbrev of_bob : ListRequest
of_bob = record { user = "bob"; problem = ""; contest = ""; limit = pos 0; offset = pos 0 }

own_found : (handle_get_submission as_ada two_users "s1").0 ≡ 200
unfolding handle_get_submission
own_found = refl

other_refused : (handle_get_submission as_ada two_users "s2").0 ≡ 403
unfolding handle_get_submission
other_refused = refl

handle_submissions-own_example :
    ShowsOwn "ada" (handle_get_submission as_ada two_users "s2").1
    × (page : List Listing) × (handle_list_submissions as_ada (ada ∷ bob ∷ []) two_users of_bob
        ≡ (200, page))
    × IsPage
        (limit_of (pos 0))
        0
        (filter (is_asked as_ada of_bob) (join_users (ada ∷ bob ∷ []) two_users.rows))
        page
handle_submissions-own_example =
    handle_submissions-own as_ada (ada ∷ bob ∷ []) two_users "s2" of_bob 0 refl refl refl refl
