-- ===== src/Users/Indexes.antt =====
-- The unique indexes of the accounts.
use elo_service.Prelude.{
  ◌≡◌, ◌⊎◌, inl, inr, sym, refl, arith, String, Bool, true, false, not, ◌&&◌, ◌||◌, Option, none,
  some, List, map, string_eq, ◌==◌, find_by, contains, IsNodup, All-find_by, All-always, Bool-cases,
  Option-cases, eq_of_test, IsNodup-concat, map-concat,
}
use mathlib.Core.Path.{subst}
use elo_service.Users.Columns.{map-update_live, IsNodup-write}
use elo_service.Store.{User, Db}
use elo_service.Matches.{get_by_id}
use elo_service.Users.{
  username_of, email_of, user_id, is_live, is_username_free, is_email_free, is_change, given_or,
  is_admin_user, update_live, create_user, update_user_profile, change_password, soft_delete_user,
  set_can_create_game,
}

-- Ids, names and emails each stand once, in live and deleted rows together.
pub record IsIndexed (db : Db) : Type 0 where
  pub ids : IsNodup (map user_id db.users)
  pub usernames : IsNodup (map username_of db.users)
  pub emails : IsNodup (map email_of db.users)

module _ (hash_password : String → Option String) (is_hash_of : String → String → Bool) where
  -- One call of an operation on accounts; a new account has a new id.
  pub data Change : Db → Db → Type 0 where
    created :
        (new_id username email password : String) {db : Db}
        → contains (map user_id db.users) new_id ≡ false
        → Change db (create_user hash_password new_id username email password db).1
    updated :
        (i : String) (username email : Option String) {db : Db}
        → Change db (update_user_profile i username email db).1
    rotated :
        (i current new : String) {db : Db}
        → Change db (change_password hash_password is_hash_of i current new db).1
    deleted : (i : String) {db : Db} → Change db (soft_delete_user i db)
    allowed :
        (i : String) (value : Bool) (actor : Option User) {db : Db}
        → Change db (set_can_create_game i value actor db).1

  pub data Changes : Db → Db → Type 0 where
    done : {db : Db} → Changes db db
    next : {a b c : Db} → Change a b → Changes b c → Changes a c

IsIndexed-update :
    (db : Db) (i : String) (f : User → User)
    → ((u : User) → user_id (f u) ≡ user_id u)
    → ((u : User) → username_of (f u) ≡ username_of u)
    → ((u : User) → email_of (f u) ≡ email_of u)
    → IsIndexed db
    → IsIndexed (update_live i f db)
IsIndexed-update db i f a b c h =
    let p : User → Bool = λ u. is_live u && u.id == i in
    record {
      ids = subst IsNodup (sym (map-update_live user_id p f db.users a)) h.ids;
      usernames = subst IsNodup (sym (map-update_live username_of p f db.users b)) h.usernames;
      emails = subst IsNodup (sym (map-update_live email_of p f db.users c)) h.emails;
    }

given_or-kept :
    (new : Option String) (old : String) → is_change new old ≡ false → given_or new old ≡ old
given_or-kept none old h = refl
given_or-kept (some new) old h = eq_of_test new old (ground arith)

-- The new value of a column is the old one or a free one.
column_free :
    (key : User → String) (new : Option String) (user : User) (us : List User)
    → (is_change new (key user) && not (not (contains (map key us) (given_or new (key user)))))
      ≡ false
    → (given_or new (key user) ≡ key user)
      ⊎ (contains (map key us) (given_or new (key user)) ≡ false)
column_free key new user us h = elim (Bool-cases (is_change new (key user))) [
  | inr kept ↦ inl (given_or-kept new (key user) kept)
  | inl changed ↦ inr (ground arith)
]

id_found :
    (i : String) (us : List User) {user : User}
    → find_by (λ u. is_live u && u.id == i) us ≡ some user
    → i ≡ user.id
id_found i us {user = user} found =
    let (_, hit) =
      All-find_by (λ _. Unit {0}) (λ u. is_live u && u.id == i) us
        (All-always (λ _. Unit {0}) us (λ _. tt)) found in
    sym (eq_of_test user.id i (ground arith))

IsIndexed-write :
    (db : Db) (i : String) (username email : Option String) {user : User}
    → IsIndexed db
    → get_by_id i db ≡ some user
    → (is_change username user.username
        && not (is_username_free (given_or username user.username) db))
      ≡ false
    → (is_change email user.email && not (is_email_free (given_or email user.email) db)) ≡ false
    → IsIndexed (
        update_live user.id
          (λ u. record u {
            username = given_or username user.username;
            email = given_or email user.email;
          })
          db)
unfolding get_by_id
IsIndexed-write db i username email {user = user} h found free_name free_email =
    let name = given_or username user.username in
    let mail = given_or email user.email in
    let f : User → User = λ u. record u { username = name; email = mail } in
    let p : User → Bool = λ u. is_live u && u.id == user.id in
    let again : find_by p db.users ≡ some user =
      subst (λ j. find_by (λ u. is_live u && u.id == j) db.users ≡ some user)
        (id_found i db.users found) found in
    record {
      ids = subst IsNodup (sym (map-update_live user_id p f db.users (λ u. refl))) h.ids;
      usernames =
          IsNodup-write username_of f name (λ u. refl) user.id db.users h.ids h.usernames again
            (column_free username_of username user db.users free_name);
      emails =
          IsNodup-write email_of f mail (λ u. refl) user.id db.users h.ids h.emails again
            (column_free email_of email user db.users free_email);
    }

IsIndexed-update_user_profile :
    (i : String) (username email : Option String) (db : Db)
    → IsIndexed db
    → IsIndexed (update_user_profile i username email db).1
unfolding update_user_profile
IsIndexed-update_user_profile i username email db h = elim (Option-cases (get_by_id i db)) [
  | inl missing ↦ rw (update_user_profile, missing) h
  | inr (user, found) ↦
      let name_taken =
        is_change username user.username
        && not (is_username_free (given_or username user.username) db) in
      let email_taken =
        is_change email user.email && not (is_email_free (given_or email user.email) db) in
      elim (Bool-cases (is_change username user.username || is_change email user.email)) [
        | inr same ↦ rw (update_user_profile, found, same) h
        | inl other ↦ elim (Bool-cases name_taken) [
          | inl no_name ↦ rw (update_user_profile, found, other, no_name) h
          | inr name_free ↦ elim (Bool-cases email_taken) [
            | inl no_email ↦ rw (update_user_profile, found, other, name_free, no_email) h
            | inr email_free ↦
                rw (update_user_profile, found, other, name_free, email_free)
                  (IsIndexed-write db i username email h found name_free email_free)
          ]
        ]
      ]
]

IsIndexed-create_user :
    (hash_password : String → Option String) (new_id username email password : String) (db : Db)
    → contains (map user_id db.users) new_id ≡ false
    → IsIndexed db
    → IsIndexed (create_user hash_password new_id username email password db).1
unfolding create_user
IsIndexed-create_user hash_password new_id username email password db fresh h =
    elim (Option-cases (hash_password password)) [
      | inl failed ↦ rw (create_user, failed) h
      | inr (p, hashed) ↦
          elim (Bool-cases (is_username_free username db && is_email_free email db)) [
            | inr taken ↦ rw (create_user, hashed, taken) h
            | inl free ↦
                let u : User = record {
                  id = new_id;
                  username = username;
                  email = email;
                  password = p;
                  is_admin = false;
                  can_create_game = false;
                  is_deleted = false;
                } in
                rw (create_user, hashed, free)
                  (record {
                    ids =
                        subst IsNodup (sym (map-concat user_id db.users u))
                          (IsNodup-concat (map user_id db.users) new_id h.ids fresh);
                    usernames = subst IsNodup (sym (map-concat username_of db.users u)) (
                        IsNodup-concat (map username_of db.users) username h.usernames
                          (ground arith));
                    emails =
                        subst IsNodup (sym (map-concat email_of db.users u))
                          (IsNodup-concat (map email_of db.users) email h.emails (ground arith));
                  })
          ]
    ]

module _ (hash_password : String → Option String) (is_hash_of : String → String → Bool) where
  IsIndexed-change : {a b : Db} → Change hash_password is_hash_of a b → IsIndexed a → IsIndexed b
  unfolding soft_delete_user change_password set_can_create_game
  IsIndexed-change (created i n e p {db = db} fresh) h =
      IsIndexed-create_user hash_password i n e p db fresh h
  IsIndexed-change (updated i n e {db = db}) h = IsIndexed-update_user_profile i n e db h
  IsIndexed-change (rotated i current new {db = db}) h = elim (Option-cases (get_by_id i db)) [
    | inl missing ↦ rw (change_password, missing) h
    | inr (user, found) ↦ elim (Bool-cases (is_hash_of user.password current)) [
      | inr wrong ↦ rw (change_password, found, wrong) h
      | inl right ↦ elim (Option-cases (hash_password new)) [
        | inl failed ↦ rw (change_password, found, right, failed) h
        | inr (p, hashed) ↦
            rw (change_password, found, right, hashed)
              (IsIndexed-update db user.id (λ u. record u { password = p }) (λ u. refl) (λ u. refl)
                (λ u. refl) h)
      ]
    ]
  ]
  IsIndexed-change (deleted i {db = db}) h =
      IsIndexed-update db i (λ u. record u { is_deleted = true }) (λ u. refl) (λ u. refl)
        (λ u. refl) h
  IsIndexed-change (allowed i value actor {db = db}) h = elim (Bool-cases (is_admin_user actor)) [
    | inr denied ↦ rw (set_can_create_game, denied) h
    | inl admin ↦ elim (Option-cases (get_by_id i db)) [
      | inl missing ↦ rw (set_can_create_game, admin, missing) h
      | inr (user, found) ↦
          rw (set_can_create_game, admin, found)
            (IsIndexed-update db user.id (λ u. record u { can_create_game = value }) (λ u. refl)
              (λ u. refl) (λ u. refl) h)
    ]
  ]

  -- However accounts are created, changed and deleted, ids, names and emails each stay distinct among all
  -- rows, deleted ones included, given that they are at first and that new rows get new ids.
  pub Changes-IsIndexed :
      {a b : Db} → Changes hash_password is_hash_of a b → IsIndexed a → IsIndexed b
  Changes-IsIndexed done h = h
  Changes-IsIndexed (next c cs) h = Changes-IsIndexed cs (IsIndexed-change c h)
