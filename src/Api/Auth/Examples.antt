-- ===== src/Api/Auth/Examples.antt =====
-- Tests of the authentication, and its theorems at concrete inputs.
use arena.Common.{
  ℕ, ℤ, pos, ltb_ℤ, String, str_eq, str_eq_iff, Bool, true, false, ◌&&◌, ◌≡◌, ◌↔◌, refl, subst,
  int_laws, ◌<ℤ◌, Option, none, some, List, [], ◌∷◌, if◌then◌else◌, arith,
}
use arena.Api.Auth.{
  User, Claims, CredReq, Crypto, IsCrypto, Secrets, is_handle, all_handle_chars, issue_token,
  get_user_by_handle, create_user, handle_register, handle_login, require_auth, require_role,
  subtle_compare,
}
use arena.Api.Auth.Compare.{subtle_compare_iff}
use arena.Api.Auth.Access.{no_more, then_register, handle_register-login}

subtle_compare_iff_example :
    (subtle_compare (7 ∷ 255 ∷ []) (7 ∷ 254 ∷ []) ≡ true)
    ↔ (◌≡◌ {A = List ℕ} (7 ∷ 255 ∷ []) (7 ∷ 254 ∷ []))
subtle_compare_iff_example =
    subtle_compare_iff (7 ∷ 255 ∷ []) (7 ∷ 254 ∷ []) (omega arith, (omega arith, tt))
      (omega arith, (omega arith, tt))

abbrev opened : Bool → Claims → Option Claims
opened b c = if b then some c else none

-- Passwords that are their own hashes, and tokens that say what they claim and who signed them.
abbrev glass : Crypto
glass = record {
  Token = String × Claims;
  no_token = (
    "",
    record {
      user_id = "";
      handle = "";
      role = "";
      subject = "";
      issued_at = pos 0;
      expires_at = pos 0;
      issuer = "";
    },
  );
  generate = λ salt password. some password;
  compare_hash = λ hash password. str_eq hash password;
  sign = λ secret c. some (secret, c);
  parse_with_claims = λ secret now t.
      opened (str_eq t.0 secret && (str_eq t.1.issuer "arena" && ltb_ℤ now t.1.expires_at)) t.1;
  same_handle = str_eq;
}

parse_signed :
    (secret : String) (token : String × Claims) (c : Claims) (now : ℤ)
    → ◌≡◌ {A = Option (String × Claims)} (some (secret, c)) (some token)
    → c.issuer ≡ "arena"
    → now <ℤ c.expires_at
    → glass.parse_with_claims secret now token ≡ some c
parse_signed secret token c now e i before =
    let same : (secret, c) ≡ token = ground arith in
    subst (λ t. glass.parse_with_claims secret now t ≡ some c) same
      (ground (arith, str_eq_iff secret secret, str_eq_iff c.issuer "arena"))

glass-IsCrypto : IsCrypto glass
glass-IsCrypto = record {
  compare_generated = λ salt password hash e. ground (arith, str_eq_iff hash password);
  parse_signed = λ secret token c now e i before. parse_signed secret token c now e i before;
  sign_total = λ secret c. ((secret, c), refl);
  handle_refl = λ h. (str_eq_iff h h).1 refl;
}

abbrev secrets : Secrets
secrets = record { jwt_secret = "s"; jwt_ttl = pos 86_400; runner_token = "r" }

abbrev ada : CredReq
ada = record { handle = "ada_l"; email = ""; password = "correct horse" }

abbrev users_after : List User
users_after = (handle_register glass secrets [] (some ada) "salt" "u1" (pos 5)).0

abbrev first_token : Option (String × Claims)
first_token = (handle_register glass secrets [] (some ada) "salt" "u1" (pos 5)).1.1

registers :
    handle_register glass secrets [] (some ada) "salt" "u1" (pos 5)
    ≡ (users_after, (201, first_token))
unfolding handle_register is_handle all_handle_chars create_user get_user_by_handle issue_token
registers = refl

abbrev bob : CredReq
bob = record { handle = "bob_m"; email = ""; password = "battery staple" }

-- Another user registers in between.
abbrev users_later : List User
users_later = (handle_register glass secrets users_after (some bob) "salt" "u2" (pos 7)).0

handle_register-login_example :
    (token : String × Claims) × (c : Claims) × (handle_login glass secrets users_later
        (some ada)
        (pos 100)
      ≡ (200, some token))
    × (c.user_id ≡ "u1")
    × (require_auth glass secrets (pos 200) (some token) ≡ some c)
    × (require_role glass secrets ("admin" ∷ []) (some c) ≡ false)
handle_register-login_example =
    handle_register-login glass secrets glass-IsCrypto [] users_after users_later ada "salt" "u1"
      (pos 5) (pos 100) (pos 200) first_token registers
      (then_register no_more (some bob) "salt" "u2" (pos 7)) (omega int_laws)
