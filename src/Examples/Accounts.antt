-- ===== src/Examples/Accounts.antt =====
-- Runs of the accounts and of the middleware, with one account and one admin.
use elo_service.Util.{is_guest_id}
use elo_service.Prelude.{
  ◌≡◌, refl, sym, ap, inl, inr, ◌&&◌, string_eq, ◌==◌, if◌then◌else◌, Bool-cases, eq_of_test, arith,
  ℕ, leb, ◌≤◌, nat_eq, String, Bool, true, Option, none, some, [], ◌∷◌,
}
use elo_service.Store.{User, Db}
use elo_service.Matches.{get_by_id}
use elo_service.Users.{soft_delete_user, get_by_email}
use elo_service.Users.Indexes.{
  IsIndexed, Changes, created, updated, deleted, next, done, Changes-IsIndexed,
}
use elo_service.Auth.{
  UserClaims, GuestClaims, AuthResult, token_of, user_context, claims_of, login,
  require_user_or_guest_auth, require_user_auth, require_admin,
}
use elo_service.Auth.Access.{
  IsAllowed, IsOwnUser, require_user_or_guest_auth-IsAllowed, require_admin-IsAdmin,
}
use elo_service.Auth.Logins.{require_user_auth-login}
use elo_service.Examples.Fixtures.{one_db}
use elo_service.Examples.PlayerData.{ann}
use elo_service.Examples.Lobbies.{one_hash, fits_all}

abbrev pub root_user : User
root_user = record ann {
  id = "root";
  username = "Root";
  email = "root@example.com";
  is_admin = true;
}

abbrev pub two_users : Db
two_users = record one_db { users = ann ∷ root_user ∷ [] }

two_users-IsIndexed : IsIndexed two_users
two_users-IsIndexed = record {
  ids = (refl, (refl, tt));
  usernames = (refl, (refl, tt));
  emails = (refl, (refl, tt));
}

-- Ann's account is deleted, and her name stays taken.
unfoldable some_changes : (db : Db) × Changes one_hash fits_all two_users db
unfolding soft_delete_user
some_changes = (
  _,
  next (deleted "ann") (
      next (created "zoe" "Ann" "zoe@example.com" "pw" refl)
        (next (updated "root" (some "Boss") none) done)),
)

Changes-IsIndexed_example : IsIndexed some_changes.0
Changes-IsIndexed_example = Changes-IsIndexed one_hash fits_all some_changes.1 two_users-IsIndexed

-- In place of the JWT library: the token is the id, and the admin acts as Ann.
abbrev pub read_one : ℕ → String → Option UserClaims
read_one now token = some (record (claims_of 0 root_user "") { impersonation_id = "ann" })

abbrev pub read_nothing : ℕ → String → Option GuestClaims
read_nothing now token = none

acting :
    require_user_or_guest_auth read_one read_nothing 7 "Bearer token" "" two_users
    ≡ AuthResult.ok (user_context ann "ann")
unfolding require_user_or_guest_auth get_by_id is_guest_id
acting = refl

require_user_or_guest_auth-IsAllowed_example :
    IsAllowed read_one read_nothing 7
      (token_of "Bearer token" "")
      two_users
      (user_context ann "ann")
    × IsOwnUser two_users (user_context ann "ann")
require_user_or_guest_auth-IsAllowed_example =
    require_user_or_guest_auth-IsAllowed read_one read_nothing 7 "Bearer token" "" two_users acting

abbrev pub read_root : ℕ → String → Option UserClaims
read_root now token = some (claims_of 0 root_user "")

as_admin :
    require_admin read_root read_nothing 7 "" "token" two_users
    ≡ AuthResult.ok (user_context root_user "root")
unfolding require_admin get_by_id
as_admin = refl

require_admin-IsAdmin_example :
    (u : User) × (get_by_id "root" two_users ≡ some u) × (u.is_admin ≡ true)
require_admin-IsAdmin_example =
    require_admin-IsAdmin read_root read_nothing 7 "" "token" two_users as_admin

-- In place of the JWT library: only Ann's claims of the time 5 are signed, and a token reads as them until they expire.
abbrev pub is_of_ann : UserClaims → Bool
is_of_ann c =
    (c.user_id == "ann" && c.display_name == "Ann")
    && (c.username == "Ann" && c.impersonation_id == "")
    && c.expires_at == 86405

abbrev pub sign_ann : UserClaims → Option String
sign_ann c = if is_of_ann c then some "token" else none

abbrev pub read_ann : ℕ → String → Option UserClaims
read_ann later token = if leb later 86405 then some (claims_of 5 ann "") else none

of_ann : (c : UserClaims) → is_of_ann c ≡ true → claims_of 5 ann "" ≡ c
of_ann c h =
    let a : c.user_id ≡ "ann" = eq_of_test c.user_id "ann" (ground arith) in
    let b : c.display_name ≡ "Ann" = eq_of_test c.display_name "Ann" (ground arith) in
    let d : c.username ≡ "Ann" = eq_of_test c.username "Ann" (ground arith) in
    let e : c.impersonation_id ≡ "" = eq_of_test c.impersonation_id "" (ground arith) in
    let x : c.expires_at ≡ 86405 = eq_of_test c.expires_at 86405 (ground arith) in
    λ i. record {
      user_id = sym a i;
      display_name = sym b i;
      username = sym d i;
      impersonation_id = sym e i;
      expires_at = sym x i;
    }

reads_what_is_signed :
    (c : UserClaims) (t : String)
    → sign_ann c ≡ some t
    → 1 ≤ c.expires_at
    → (later : ℕ) → read_ann later t ≡ (if leb later c.expires_at then some c else none)
reads_what_is_signed c t h expires later = elim (Bool-cases (is_of_ann c)) [
  | inl hers ↦
      ap (λ (x : UserClaims). if leb later x.expires_at then some x else none) (of_ann c hers)
  | inr others ↦ cc (rw others at h)
]

logged_in :
    login 5 sign_ann fits_all "ann@example.com" "" "pw" two_users ≡ AuthResult.ok ("token", ann)
unfolding login get_by_email
logged_in = refl

bare : token_of "Bearer token" "" ≡ "token"
unfolding token_of
bare = refl

require_user_auth-login_example :
    require_user_auth read_ann read_nothing 9 "Bearer token" "" two_users
    ≡ AuthResult.ok (user_context ann "ann")
require_user_auth-login_example =
    require_user_auth-login read_ann read_nothing 5 sign_ann fits_all reads_what_is_signed
      "ann@example.com" "" "pw" two_users logged_in (refl, (refl, tt)) refl refl refl "Bearer token"
      "" bare 9
