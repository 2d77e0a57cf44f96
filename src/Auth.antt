-- ===== src/Auth.antt =====
-- api/auth: who a request is from. The JWT library is the parameters `read_user` and `read_guest`, the
-- claims of a token whose signature is good and which has not expired at a time, and `sign`, which may fail.
-- Times are in seconds.
pub mod Access
pub mod Logins
use Prim.Native.String.{len, slice, ◌++◌ as string_append}
use elo_service.Prelude.{
  ◌≡◌, ◌⊎◌, inl, inr, ℕ, ◌+◌, ◌*◌, String, Bool, true, false, not, ◌&&◌, Option, none, some, nat_eq,
  string_eq, ltb, if◌then◌else◌, ◌==◌,
}
use elo_service.Store.{User, Db}
use elo_service.Util.{is_guest_id}
use elo_service.Matches.{get_by_id}
use elo_service.Users.{get_by_email}

pub record UserClaims : Type 0 where
  pub user_id : String
  pub display_name : String
  pub username : String
  pub impersonation_id : String
  pub expires_at : ℕ

pub record GuestClaims : Type 0 where
  pub id : String
  pub display_name : String
  pub expires_at : ℕ

-- `models.Guest`
pub record Guest : Type 0 where
  pub id : String
  pub display_name : String

-- 24 hours
abbrev pub jwt_timeout : ℕ
jwt_timeout = 3600 * 24

-- What the middleware leaves for the handler.
pub record Context : Type 0 where
  pub user : Option User
  pub guest : Option Guest
  pub id : String

pub data AuthError : Type 0 where
  unauthorized forbidden internal_error invalid_credentials sign_failed : AuthError

pub data AuthResult (A : Type 0) : Type 0 where
  ok : A → AuthResult A
  err : AuthError → AuthResult A

-- The header, or else the parameter, without "Bearer "; "" is no token.
unfoldable pub token_of : String → String → String
token_of header parameter =
    let token = if header == "" then parameter else header in
    if ltb 7 (len token) && slice token 0 7 == "Bearer " then slice token 7 (len token) else token

abbrev pub user_context : User → String → Context
user_context user id = record { user = some user; guest = none; id = id }

abbrev pub guest_context : Guest → Context
guest_context g = record { user = none; guest = some g; id = g.id }

-- An admin may act as a guest or as a user.
unfoldable pub context_of_claims : UserClaims → Db → AuthResult Context
context_of_claims c db = elim (get_by_id c.user_id db) [
  | none ↦ err internal_error
  | some user ↦
      if user.is_admin && not (c.impersonation_id == "")
      then if is_guest_id c.impersonation_id
        then ok (guest_context (record { id = c.impersonation_id; display_name = c.display_name }))
        else elim (get_by_id c.impersonation_id db) [
          | none ↦ err internal_error
          | some other ↦ ok (user_context other c.impersonation_id)
        ]
      else ok (user_context user c.user_id)
]

-- Here an admin may act as a user only.
unfoldable pub user_context_of_claims : UserClaims → Db → AuthResult Context
user_context_of_claims c db = elim (get_by_id c.user_id db) [
  | none ↦ err internal_error
  | some user ↦
      if user.is_admin && not (c.impersonation_id == "")
      then elim (get_by_id c.impersonation_id db) [
        | none ↦ err internal_error
        | some other ↦ ok (user_context other c.impersonation_id)
      ]
      else ok (user_context user c.user_id)
]

abbrev pub is_admin_context : Context → Bool
is_admin_context ctx = elim ctx.user [ none ↦ false | some u ↦ u.is_admin ]

abbrev pub guest_of : GuestClaims → Guest
guest_of c = record { id = c.id; display_name = c.display_name }

module _ (read_user : ℕ → String → Option UserClaims)
    (read_guest : ℕ → String → Option GuestClaims) where
  unfoldable pub validate_user_token : ℕ → String → Option UserClaims
  validate_user_token now token = elim (read_user now token) [
    | none ↦ none
    | some c ↦
        if c.user_id == ""
        then none
        else if c.display_name == ""
        then none
        else if c.username == ""
        then none
        else some c
  ]

  unfoldable pub validate_guest_token : ℕ → String → Option GuestClaims
  validate_guest_token now token = elim (read_guest now token) [
    | none ↦ none
    | some c ↦ if c.id == "" then none else if c.display_name == "" then none else some c
  ]

  unfoldable pub require_user_or_guest_auth : ℕ → String → String → Db → AuthResult Context
  unfolding token_of validate_user_token validate_guest_token context_of_claims
  require_user_or_guest_auth now header parameter db =
      let token = token_of header parameter in
      if token == "" then err unauthorized else elim (validate_user_token now token) [
        | some c ↦ context_of_claims c db
        | none ↦ elim (validate_guest_token now token) [
          | some g ↦ ok (guest_context (guest_of g))
          | none ↦ err unauthorized
        ]
      ]

  unfoldable pub require_user_auth : ℕ → String → String → Db → AuthResult Context
  unfolding token_of validate_user_token user_context_of_claims
  require_user_auth now header parameter db =
      let token = token_of header parameter in
      if token == "" then err unauthorized else elim (validate_user_token now token) [
        | none ↦ err unauthorized
        | some c ↦ user_context_of_claims c db
      ]

  unfoldable pub require_guest_auth : ℕ → String → String → AuthResult Context
  unfolding token_of validate_guest_token
  require_guest_auth now header parameter =
      let token = token_of header parameter in
      if token == "" then err unauthorized else elim (validate_guest_token now token) [
        | none ↦ err unauthorized
        | some g ↦ ok (guest_context (guest_of g))
      ]

  unfoldable pub require_admin : ℕ → String → String → Db → AuthResult Context
  unfolding require_user_auth
  require_admin now header parameter db = elim (require_user_auth now header parameter db) [
    | err e ↦ err e
    | ok ctx ↦ if not (is_admin_context ctx) then err forbidden else ok ctx
  ]

abbrev pub claims_of : ℕ → User → String → UserClaims
claims_of now user display_name = record {
  user_id = user.id;
  display_name = if display_name == "" then user.username else display_name;
  username = user.username;
  impersonation_id = "";
  expires_at = now + jwt_timeout;
}

-- A wrong email and a wrong password are told in the same words.
unfoldable pub login :
    ℕ
    → (UserClaims → Option String)
    → (String → String → Bool)
    → String
    → String
    → String
    → Db
    → AuthResult (String × User)
unfolding get_by_email
login now sign is_hash_of email display_name password db = elim (get_by_email email db) [
  | none ↦ err invalid_credentials
  | some user ↦
      if not (is_hash_of user.password password)
      then err invalid_credentials
      else elim (sign (claims_of now user display_name)) [
        | none ↦ err sign_failed
        | some token ↦ ok (token, user)
      ]
]

-- The id is "g_" and a new UUID.
unfoldable pub guest_login :
    ℕ → (GuestClaims → Option String) → String → String → AuthResult (String × GuestClaims)
guest_login now sign new_uuid display_name =
    let claims : GuestClaims = record {
      id = string_append "g_" new_uuid;
      display_name = display_name;
      expires_at = now + jwt_timeout;
    } in
    elim (sign claims) [ none ↦ err sign_failed | some token ↦ ok (token, claims) ]
