-- ===== src/Auth/Logins.antt =====
-- What a token of a login is good for.
use mathlib.Core.Path.{subst}
use elo_service.Prelude.{
  ◌≡◌, ◌∙◌, inl, inr, sym, ap, refl, arith, ℕ, ◌+◌, ◌*◌, leb, ◌≤◌, if◌then◌else◌, String, Bool,
  true, false, ◌&&◌, Option, none, some, List, [], ◌∷◌, map, string_eq, ◌==◌, find_by, contains,
  IsNodup, Bool-cases, Option-cases, eq_self, eq_of_test, contains-find_by,
}
use elo_service.Store.{User, Db}
use elo_service.Matches.{get_by_id}
use elo_service.Users.{user_id, is_live, get_by_email}
use elo_service.Auth.{
  UserClaims, GuestClaims, AuthResult, ok, err, unauthorized, token_of, user_context, claims_of,
  login, validate_user_token, user_context_of_claims, require_user_auth,
}

-- A live row found in whatever way is the one that its id finds.
find_by-id :
    (p : User → Bool) (us : List User) {u : User}
    → IsNodup (map user_id us)
    → find_by (λ x. is_live x && p x) us ≡ some u
    → find_by (λ x. is_live x && x.id == u.id) us ≡ some u
find_by-id p [] h found = cc
find_by-id p (x ∷ us) {u = u} h found = elim (Bool-cases (is_live x && p x)) [
  | inl hit ↦
      let same : x ≡ u = cc in
      let own : (is_live x && x.id == x.id) ≡ true = ground (arith, eq_self x.id) in
      subst (λ (v : User). find_by (λ y. is_live y && y.id == v.id) (x ∷ us) ≡ some v) same
        (rw own refl)
  | inr miss ↦
      let later : find_by (λ y. is_live y && p y) us ≡ some u = rw miss at found in
      elim (Bool-cases (x.id == u.id)) [
        | inr other ↦
            let skip : (is_live x && x.id == u.id) ≡ false = ground arith in
            rw skip (find_by-id p us h.1 later)
        | inl same ↦
            let there = contains-find_by user_id (λ y. is_live y && p y) us later in
            let gone : contains (map user_id us) u.id ≡ false =
              subst (λ k. contains (map user_id us) k ≡ false) (eq_of_test x.id u.id same) h.0 in
            cc
      ]
]

module _ (read_user : ℕ → String → Option UserClaims) (read_guest : ℕ → String → Option GuestClaims)
    (now : ℕ) (sign : UserClaims → Option String) (is_hash_of : String → String → Bool) where
  login-cases :
      (email display_name password : String) (db : Db) {token : String} {user : User}
      → login now sign is_hash_of email display_name password db ≡ ok (token, user)
      → (get_by_email email db ≡ some user) × (sign (claims_of now user display_name) ≡ some token)
  unfolding login
  login-cases email display_name password db {token = token} {user = user} h =
      elim (Option-cases (get_by_email email db)) [
        | inl nobody ↦ cc (rw (login, nobody) at h)
        | inr (u, found) ↦ elim (Bool-cases (is_hash_of u.password password)) [
          | inr wrong ↦ cc (rw (login, found, wrong) at h)
          | inl right ↦ elim (Option-cases (sign (claims_of now u display_name))) [
            | inl failed ↦ cc (rw (login, found, right, failed) at h)
            | inr (t, signed) ↦
                let all : ◌≡◌ {A = AuthResult (String × User)} (ok (t, u)) (ok (token, user)) =
                  rw (login, found, right, signed) at h in
                let pair : (t, u) ≡ (token, user) = cc in
                let is_t : t ≡ token = ap (λ (p : String × User). p.0) pair in
                let is_u : u ≡ user = ap (λ (p : String × User). p.1) pair in
                (
                  found ∙ ap (λ x. some x) is_u,
                  ap (λ x. sign (claims_of now x display_name)) (sym is_u)
                      ∙ signed
                      ∙ ap (λ x. some x) is_t,
                )
          ]
        ]
      ]

  display_name_given :
      (user : User) (display_name : String)
      → (user.username == "") ≡ false
      → ((claims_of now user display_name).display_name == "") ≡ false
  display_name_given user display_name h = elim (Bool-cases (display_name == "")) [
    | inl empty ↦ rw empty h
    | inr given ↦ rw given given
  ]

  validate-claims :
      (later : ℕ) (token : String) (user : User) (display_name : String)
      → read_user later token ≡ some (claims_of now user display_name)
      → (user.id == "") ≡ false
      → (user.username == "") ≡ false
      → validate_user_token read_user read_guest later token
        ≡ some (claims_of now user display_name)
  unfolding validate_user_token
  validate-claims later token user display_name h id_given name_given =
      rw
        (
          validate_user_token,
          h,
          id_given,
          display_name_given user display_name name_given,
          name_given,
        )
        refl

  context-claims :
      (user : User) (display_name : String) (db : Db)
      → get_by_id user.id db ≡ some user
      → user_context_of_claims (claims_of now user display_name) db ≡ ok (user_context user user.id)
  unfolding user_context_of_claims
  context-claims user display_name db found =
      let plain : (user.is_admin && false) ≡ false = ground arith in
      rw (user_context_of_claims, found, plain) refl

  -- For 24 hours the token of a login passes RequireUserAuth as the user that logged in, and after them it is refused, given
  -- that the JWT library reads the claims that it signs until they expire, and not later, that ids are distinct, that the user's id and name are not
  -- empty, and that the token is one and has no "Bearer " in front.
  pub require_user_auth-login :
      ((c : UserClaims) (t : String)
        → sign c ≡ some t
        → 1 ≤ c.expires_at
        → (later : ℕ) → read_user later t ≡ (if leb later c.expires_at then some c else none))
      → (email display_name password : String) (db : Db) {token : String} {user : User}
      → login now sign is_hash_of email display_name password db ≡ ok (token, user)
      → IsNodup (map user_id db.users)
      → (user.id == "") ≡ false
      → (user.username == "") ≡ false
      → (token == "") ≡ false
      → (header parameter : String) → token_of header parameter ≡ token
      → (later : ℕ)
      → require_user_auth read_user read_guest later header parameter db
        ≡ (if leb later (now + 24 * 3600) then ok (user_context user user.id) else err unauthorized)
  unfolding require_user_auth validate_user_token get_by_email get_by_id
  require_user_auth-login reads email display_name password db {token = token} {user = user}
        logged_in ids id_given name_given token_given header parameter sent later =
      let (found, signed) = login-cases email display_name password db logged_in in
      let read = reads (claims_of now user display_name) token signed (omega arith) later in
      let by_id : get_by_id user.id db ≡ some user =
        find_by-id (λ u. u.email == email) db.users ids found in
      elim (Bool-cases (leb later (now + 24 * 3600))) [
        | inl fresh ↦
            let valid =
              validate-claims later token user display_name (read ∙ rw fresh refl) id_given
                name_given in
            rw (require_user_auth, sent, token_given, valid, fresh)
              (context-claims user display_name db by_id)
        | inr stale ↦
            let gone : read_user later token ≡ none = read ∙ rw stale refl in
            rw (require_user_auth, sent, token_given, validate_user_token, gone, stale) refl
      ]
