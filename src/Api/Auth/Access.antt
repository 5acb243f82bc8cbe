-- ===== src/Api/Auth/Access.antt =====
-- What a participant who registers can do.
use arena.Common.{
  ℤ, ◌+ℤ◌, ◌<ℤ◌, ltb, String, true, false, ◌≡◌, refl, ap, ◌∙◌, Option, none, some, List, [], ◌∷◌,
  ◌++◌, Option-cases, Bool-cases, inl, inr, arith,
}
use Prim.Native.String.{len}
use arena.Api.Auth.{
  User, Claims, CredReq, Crypto, IsCrypto, Secrets, is_handle, issue_token, parse_token,
  get_user_by_handle, create_user, handle_register, handle_login, require_auth, has_role,
  require_role,
}

module _ (k : Crypto) (cfg : Secrets) where
  get_user_by_handle-append :
      (h : String) (users : List User) (u : User)
      → get_user_by_handle k cfg h users ≡ none
      → k.same_handle u.handle h ≡ true
      → get_user_by_handle k cfg h (users ++ u ∷ []) ≡ some u
  unfolding get_user_by_handle
  get_user_by_handle-append h [] u e s = ground arith
  get_user_by_handle-append h (v ∷ users) u e s =
      ground (arith, get_user_by_handle-append h users u)

  get_user_by_handle-kept :
      (h : String) (users : List User) (v u : User)
      → get_user_by_handle k cfg h users ≡ some u
      → get_user_by_handle k cfg h (users ++ v ∷ []) ≡ some u
  unfolding get_user_by_handle
  get_user_by_handle-kept h [] v u e = absurd (cc)
  get_user_by_handle-kept h (x ∷ users) v u e = ground (arith, get_user_by_handle-kept h users v u)

  abbrev new_user : CredReq → String → String → ℤ → User
  new_user req hash id now = record {
    id = id;
    handle = req.handle;
    email = req.email;
    password_hash = hash;
    role = "participant";
    created_at = now;
  }

  handle_register-created :
      (users users' : List User) (req : CredReq) (salt id : String) (now : ℤ) (tok : Option k.Token)
      → handle_register k cfg users (some req) salt id now ≡ (users', (201, tok))
      → (hash : String) × (k.generate salt req.password ≡ some hash)
        × (get_user_by_handle k cfg req.handle users ≡ none)
        × (users' ≡ users ++ new_user req hash id now ∷ [])
  unfolding handle_register create_user
  handle_register-created users users' req salt id now tok e =
      elim (Bool-cases (is_handle req.handle)) [
        | inr b ↦ absurd (ground arith)
        | inl b ↦ elim (Bool-cases (ltb (len req.password) 8)) [
          | inl s ↦ absurd (ground arith)
          | inr s ↦ elim (Option-cases (k.generate salt req.password)) [
            | inl f ↦ absurd (ground arith)
            | inr (hash, f) ↦ elim (Option-cases (get_user_by_handle k cfg req.handle users)) [
              | inr (taken, g) ↦ absurd (ground arith)
              | inl g ↦ (hash, f, g, ground arith)
            ]
          ]
        ]
      ]

  -- A user who is found stays found, whoever registers.
  handle_register-keeps :
      (h : String) (users : List User) (body : Option CredReq) (salt id : String) (now : ℤ)
      (u : User)
      → get_user_by_handle k cfg h users ≡ some u
      → get_user_by_handle k cfg h (handle_register k cfg users body salt id now).0 ≡ some u
  unfolding handle_register create_user
  handle_register-keeps h users none salt id now u e = e
  handle_register-keeps h users (some req) salt id now u e =
      elim (Option-cases (k.generate salt req.password)) [
        | inl f ↦ ground (arith, e, f)
        | inr (hash, f) ↦
            ground (arith, e, f, get_user_by_handle-kept h users (new_user req hash id now) u e)
      ]

  -- Registrations, one behind the other, each answered in any way.
  pub data Registrations (users : List User) : List User → Type 0 where
    no_more : Registrations users users
    then_register :
        {us : List User}
        → Registrations users us
        → (body : Option CredReq) (salt id : String) (now : ℤ)
        → Registrations users (handle_register k cfg us body salt id now).0

  Registrations-keep :
      {users us : List User} (h : String) (u : User)
      → Registrations users us
      → get_user_by_handle k cfg h users ≡ some u
      → get_user_by_handle k cfg h us ≡ some u
  Registrations-keep h u no_more e = e
  Registrations-keep h u (then_register {us = us} r body salt id now) e =
      handle_register-keeps h us body salt id now u (Registrations-keep h u r e)

  -- Who registers and is answered 201 can log in with the same handle and password, whoever else
  -- registers in between, on a database that answers: the answer is 200, with a token that
  -- `requireAuth` takes for the new user until its time is over, and with which
  -- `requireRole("admin")` lets nobody through. On what the code relies on of bcrypt and of the
  -- tokens.
  pub handle_register-login :
      IsCrypto k
      → (users users' us : List User) (req : CredReq) (salt id : String) (now later at : ℤ)
        (tok : Option k.Token)
      → handle_register k cfg users (some req) salt id now ≡ (users', (201, tok))
      → Registrations users' us
      → at <ℤ later +ℤ cfg.jwt_ttl
      → (token : k.Token) × (c : Claims) × (handle_login k cfg us (some req) later
          ≡ (200, some token))
        × (c.user_id ≡ id)
        × (require_auth k cfg at (some token) ≡ some c)
        × (require_role k cfg ("admin" ∷ []) (some c) ≡ false)
  unfolding handle_login issue_token require_auth parse_token require_role has_role
  handle_register-login l users users' us req salt id now later at tok e later_ones before =
      let (hash, f, g, same) = handle_register-created users users' req salt id now tok e in
      let u = new_user req hash id now in
      let (token, signed) = l.sign_total cfg.jwt_secret (claims_of u) in
      let found : get_user_by_handle k cfg req.handle us ≡ some u =
        Registrations-keep req.handle u later_ones (
          ap (get_user_by_handle k cfg req.handle) same
          ∙ get_user_by_handle-append req.handle users u g (l.handle_refl req.handle)) in
      let right = l.compare_generated salt req.password hash f in
      (
        token,
        claims_of u,
        ground (arith, found, right, signed),
        refl,
        l.parse_signed cfg.jwt_secret token (claims_of u) at signed refl before,
        refl,
      )
    where
      claims_of : User → Claims
      claims_of u = record {
        user_id = u.id;
        handle = u.handle;
        role = u.role;
        subject = u.id;
        issued_at = later;
        expires_at = later +ℤ cfg.jwt_ttl;
        issuer = "arena";
      }
