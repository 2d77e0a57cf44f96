-- ===== src/Users.antt =====
-- models/user.go: the accounts. Rows stay when an account is deleted, and keep their places in the unique
-- indexes on names and emails. bcrypt's two functions are parameters: `hash_password`, which may fail,
-- and `is_hash_of`, a hash and a password. The id of a new row comes from the store.
pub mod Columns
pub mod Indexes
use elo_service.Prelude.{
  ◌⊎◌, inl, inr, ◌≡◌, refl, ℕ, ◌*◌, ◌+◌, String, Bool, true, false, not, ◌&&◌, ◌||◌, Option, none,
  some, List, [], ◌∷◌, ◌++◌, map, nat_eq, string_eq, ltb, if◌then◌else◌, ◌==◌, length, take, drop,
  find_by, filter_by, update_by, any_by, contains,
}
use elo_service.Store.{User, Db}
use elo_service.Matches.{get_by_id}

pub data UserError : Type 0 where
  user_not_found not_admin invalid_password username_taken email_taken hash_error duplicate :
      UserError

pub data UserResult (A : Type 0) : Type 0 where
  ok : A → UserResult A
  err : UserError → UserResult A

abbrev pub username_of : User → String
username_of u = u.username

abbrev pub email_of : User → String
email_of u = u.email

abbrev pub user_id : User → String
user_id u = u.id

-- The unique indexes count the deleted rows too.
abbrev pub is_username_free : String → Db → Bool
is_username_free username db = not (contains (map username_of db.users) username)

abbrev pub is_email_free : String → Db → Bool
is_email_free email db = not (contains (map email_of db.users) email)

unfoldable pub create_user :
    (String → Option String) → String → String → String → String → Db → UserResult User × Db
create_user hash_password new_id username email password db = elim (hash_password password) [
  | none ↦ (err hash_error, db)
  | some h ↦
      let user : User = record {
        id = new_id;
        username = username;
        email = email;
        password = h;
        is_admin = false;
        can_create_game = false;
        is_deleted = false;
      } in
      if is_username_free username db && is_email_free email db
      then (ok user, record db { users = db.users ++ (user ∷ []) })
      else (err duplicate, db)
]

abbrev pub is_live : User → Bool
is_live u = not u.is_deleted

unfoldable pub get_by_username : String → Db → Option User
get_by_username username db = find_by (λ u. is_live u && u.username == username) db.users

unfoldable pub get_by_email : String → Db → Option User
get_by_email email db = find_by (λ u. is_live u && u.email == email) db.users

-- A field that is given and is another than the row's.
abbrev pub is_change : Option String → String → Bool
is_change none old = false
is_change (some new) old = not (new == old)

abbrev pub given_or : Option String → String → String
given_or none old = old
given_or (some new) old = new

-- `UPDATE ... WHERE id = ?`, which leaves the deleted rows.
abbrev pub update_live : String → (User → User) → Db → Db
update_live i f db = record db { users = update_by (λ u. is_live u && u.id == i) f db.users }

-- Both updates at once; the first index that fails names the error.
unfoldable pub update_user_profile :
    String → Option String → Option String → Db → UserResult User × Db
unfolding get_by_id
update_user_profile i username email db = elim (get_by_id i db) [
  | none ↦ (err user_not_found, db)
  | some user ↦
      let user' : User = record user {
        username = given_or username user.username;
        email = given_or email user.email;
      } in
      if not (is_change username user.username || is_change email user.email)
      then (ok user, db)
      else if is_change username user.username && not (is_username_free user'.username db)
      then (err username_taken, db)
      else if is_change email user.email && not (is_email_free user'.email db)
      then (err email_taken, db)
      else (
        ok user',
        update_live user.id (λ u. record u { username = user'.username; email = user'.email }) db,
      )
]

unfoldable pub change_password :
    (String → Option String)
    → (String → String → Bool)
    → String
    → String
    → String
    → Db
    → UserResult (Unit {0}) × Db
unfolding get_by_id
change_password hash_password is_hash_of i current new db = elim (get_by_id i db) [
  | none ↦ (err user_not_found, db)
  | some user ↦
      if not (is_hash_of user.password current)
      then (err invalid_password, db)
      else elim (hash_password new) [
        | none ↦ (err hash_error, db)
        | some h ↦ (ok tt, update_live user.id (λ u. record u { password = h }) db)
      ]
]

unfoldable pub soft_delete_user : String → Db → Db
soft_delete_user i db = update_live i (λ u. record u { is_deleted = true }) db

abbrev pub is_admin_user : Option User → Bool
is_admin_user none = false
is_admin_user (some a) = a.is_admin

-- The actor may be missing.
unfoldable pub set_can_create_game : String → Bool → Option User → Db → UserResult User × Db
unfolding get_by_id
set_can_create_game i value actor db =
    if not (is_admin_user actor) then (err not_admin, db) else elim (get_by_id i db) [
      | none ↦ (err user_not_found, db)
      | some target ↦ (
        ok (record target { can_create_game = value }),
        update_live target.id (λ u. record u { can_create_game = value }) db,
      )
    ]

-- The user of the context, and the parameter `id` of the query, which only an admin may use.
unfoldable pub user_id_from_context : User → String → String
user_id_from_context user query_id =
    if user.is_admin && not (query_id == "") then query_id else user.id
