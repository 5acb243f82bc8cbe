-- ===== src/Api/Auth.antt =====
-- internal/api/auth.go, and the registration and the login of internal/api/handlers_auth.go, with
-- the users of internal/adapters/postgres/store.go. JSON web tokens and bcrypt are parameters, the
-- equality of the column `citext` too; times are seconds, as in a token.
pub mod Compare
pub mod Access
mod Examples
use Prim.Native.String.{len}
use Prim.Native.Char.{code}
use arena.Common.{
  ℕ, zero, suc, ◌+◌, ◌*◌, ◌/◌, ◌%◌, ℤ, pos, ◌+ℤ◌, ◌<ℤ◌, ltb, leb, ◌==◌, String, str_eq, Bool, true,
  false, ◌&&◌, ◌||◌, not, ◌≡◌, Option, none, some, List, [], ◌∷◌, ◌++◌, length, if◌then◌else◌,
}
use arena.Store.{DbResult, ok, refused}

pub record User : Type 0 where
  pub id : String
  pub handle : String
  pub email : String
  pub password_hash : String
  pub role : String
  pub created_at : ℤ

pub record Claims : Type 0 where
  pub user_id : String
  pub handle : String
  pub role : String
  pub subject : String
  pub issued_at : ℤ
  pub expires_at : ℤ
  pub issuer : String

pub record CredReq : Type 0 where
  pub handle : String
  pub email : String
  pub password : String

-- bcrypt with a salt, the signing and the parsing of tokens under a secret at a time, and the
-- equality of handles in the database.
pub record Crypto : Type 1 where
  pub Token : Type 0
  -- The empty text.
  pub no_token : Token
  pub generate : String → String → Option String
  pub compare_hash : String → String → Bool
  pub sign : String → Claims → Option Token
  pub parse_with_claims : String → ℤ → Token → Option Claims
  pub same_handle : String → String → Bool

-- What the code relies on.
pub record IsCrypto (k : Crypto) : Type 0 where
  pub compare_generated :
      (salt password hash : String)
      → k.generate salt password ≡ some hash
      → k.compare_hash hash password ≡ true
  pub parse_signed :
      (secret : String) (token : k.Token) (c : Claims) (now : ℤ)
      → k.sign secret c ≡ some token
      → c.issuer ≡ "arena"
      → now <ℤ c.expires_at
      → k.parse_with_claims secret now token ≡ some c
  pub sign_total : (secret : String) (c : Claims) → (t : k.Token) × (k.sign secret c ≡ some t)
  pub handle_refl : (h : String) → k.same_handle h h ≡ true

-- The part of the configuration that is read here.
pub record Secrets : Type 0 where
  pub jwt_secret : String
  pub jwt_ttl : ℤ
  pub runner_token : String

-- `^[a-zA-Z0-9_]$` of one character.
abbrev pub is_handle_char : ℕ → Bool
is_handle_char c =
    (leb 97 c && leb c 122) || (leb 65 c && leb c 90) || (leb 48 c && leb c 57) || (c == 95)

unfoldable pub all_handle_chars : String → Bool
all_handle_chars String.[] = true
all_handle_chars (String.◌∷◌ c s) = is_handle_char (code c) && all_handle_chars s

-- `handleRe`: these characters are one byte each.
unfoldable pub is_handle : String → Bool
unfolding all_handle_chars
is_handle s = all_handle_chars s && leb 3 (len s) && leb (len s) 24

module _ (k : Crypto) (cfg : Secrets) where
  open k use {Token}

  unfoldable pub issue_token : User → ℤ → Option Token
  issue_token u now = k.sign cfg.jwt_secret (record {
    user_id = u.id;
    handle = u.handle;
    role = u.role;
    subject = u.id;
    issued_at = now;
    expires_at = now +ℤ cfg.jwt_ttl;
    issuer = "arena";
  })

  unfoldable pub parse_token : ℤ → Token → Option Claims
  parse_token now tok = k.parse_with_claims cfg.jwt_secret now tok

  -- `SELECT … FROM users WHERE handle = $1`, on a database that answers (the login is refused
  -- otherwise)
  unfoldable pub get_user_by_handle : String → List User → Option User
  get_user_by_handle h [] = none
  get_user_by_handle h (u ∷ users) =
      let rest = get_user_by_handle h users in if k.same_handle u.handle h then some u else rest

  abbrev pub is_role : String → Bool
  is_role r = str_eq r "participant" || str_eq r "setter" || str_eq r "admin"

  -- `CreateUser`, with the id and the time that the database gives: a handle is unique, and a role
  -- is one of three.
  unfoldable pub create_user : List User → User → String → ℤ → DbResult (List User × User)
  unfolding get_user_by_handle
  create_user users u id now =
      let row = record u { id = id; created_at = now } in
      elim (get_user_by_handle u.handle users) [
        | some taken ↦ refused
        | none ↦ if is_role u.role then ok (users ++ row ∷ [], row) else refused
      ]

  -- An answer: the code, and the token if there is one.
  abbrev pub Answer : Type 0
  Answer = ℕ × Option Token

  -- A token that cannot be signed is the empty text.
  abbrev pub token_or_empty : Option Token → Option Token
  token_or_empty none = some k.no_token
  token_or_empty (some t) = some t

  abbrev pub registered : List User → DbResult (List User × User) → ℤ → List User × Answer
  registered users refused now = (users, (409, none))
  registered users (ok (users', u)) now = (users', (201, token_or_empty (issue_token u now)))

  -- `handleRegister`, with the salt of bcrypt and the id and the time of the database.
  unfoldable pub handle_register :
      List User → Option CredReq → String → String → ℤ → List User × Answer
  unfolding is_handle create_user issue_token
  handle_register users none salt id now = (users, (400, none))
  handle_register users (some req) salt id now =
      if not (is_handle req.handle)
      then (users, (400, none))
      else if ltb (len req.password) 8
      then (users, (400, none))
      else elim (k.generate salt req.password) [
        | none ↦ (users, (500, none))
        | some hash ↦
            registered users
              (create_user users
                (record {
                  id = "";
                  handle = req.handle;
                  email = req.email;
                  password_hash = hash;
                  role = "participant";
                  created_at = pos 0;
                })
                id now)
              now
      ]

  abbrev pub logged_in : Option Token → Answer
  logged_in none = (500, none)
  logged_in (some t) = (200, some t)

  unfoldable pub handle_login : List User → Option CredReq → ℤ → Answer
  unfolding get_user_by_handle issue_token
  handle_login users none now = (400, none)
  handle_login users (some req) now = elim (get_user_by_handle req.handle users) [
    | none ↦ (401, none)
    | some u ↦
        if k.compare_hash u.password_hash req.password
        then logged_in (issue_token u now)
        else (401, none)
  ]

  -- `requireAuth`, on what stands behind "Bearer " in the header: the claims, or 401.
  unfoldable pub require_auth : ℤ → Option Token → Option Claims
  unfolding parse_token
  require_auth now none = none
  require_auth now (some tok) = parse_token now tok

  unfoldable pub has_role : String → List String → Bool
  has_role role [] = false
  has_role role (r ∷ roles) = str_eq r role || has_role role roles

  -- `requireRole`
  unfoldable pub require_role : List String → Option Claims → Bool
  unfolding has_role
  require_role roles none = false
  require_role roles (some c) = has_role c.role roles

-- The loop of `subtleCompare`. Bytes are numbers below 256, of eight bits.
unfoldable pub bit_xor : ℕ → ℕ → ℕ → ℕ
bit_xor zero a b = 0
bit_xor (suc bits) a b = (a % 2 + b % 2) % 2 + 2 * bit_xor bits (a / 2) (b / 2)

unfoldable pub bit_or : ℕ → ℕ → ℕ → ℕ
bit_or zero a b = 0
bit_or (suc bits) a b = (if (a % 2 + b % 2) == 0 then 0 else 1) + 2 * bit_or bits (a / 2) (b / 2)

unfoldable pub differing : ℕ → List ℕ → List ℕ → ℕ
differing v [] b = v
differing v (x ∷ a) [] = v
differing v (x ∷ a) (y ∷ b) = differing (bit_or 8 v (bit_xor 8 x y)) a b

unfoldable pub subtle_compare : List ℕ → List ℕ → Bool
subtle_compare a b = if not (length a == length b) then false else differing 0 a b == 0
