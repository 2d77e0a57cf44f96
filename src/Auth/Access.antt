-- ===== src/Auth/Access.antt =====
-- Whom the middleware lets in.
use mathlib.Core.Path.{subst}
use elo_service.Prelude.{
  ◌≡◌, ◌∙◌, ◌⊎◌, inl, inr, sym, ap, refl, arith, ℕ, String, true, not, ◌&&◌, Option, some,
  string_eq, ◌==◌, Bool-cases, Option-cases,
}
use elo_service.Store.{User, Db}
use elo_service.Util.{is_guest_id}
use elo_service.Matches.{get_by_id}
use elo_service.Auth.{
  UserClaims, GuestClaims, Guest, Context, AuthError, AuthResult, ok, err, token_of, user_context,
  guest_context, guest_of, validate_user_token, validate_guest_token, context_of_claims,
  user_context_of_claims, require_user_or_guest_auth, require_user_auth, require_admin,
  is_admin_context,
}

AuthResult-cases :
    (r : AuthResult Context) → ((e : AuthError) × (r ≡ err e)) ⊎ ((ctx : Context) × (r ≡ ok ctx))
AuthResult-cases (ok ctx) = inr (ctx, refl)
AuthResult-cases (err e) = inl (e, refl)

-- The user of a context, if there is one, is the live account of its id.
abbrev pub IsOwnUser : Db → Context → Type 0
IsOwnUser db ctx = (u : User) → ctx.user ≡ some u → get_by_id ctx.id db ≡ some u

-- The context is of the claims' own account, or that account is an admin's, who may act as another.
abbrev pub IsOfClaims : UserClaims → Db → Context → Type 0
IsOfClaims c db ctx =
    (u : User) × (get_by_id c.user_id db ≡ some u)
    × ((ctx.id ≡ c.user_id) ⊎ ((u.is_admin ≡ true) × (ctx.id ≡ c.impersonation_id)))

own_user :
    (db : Db) (u : User) (id : String) {ctx : Context}
    → get_by_id id db ≡ some u
    → user_context u id ≡ ctx
    → IsOwnUser db ctx
own_user db u id found same = subst (IsOwnUser db) same (λ v e. found ∙ e)

own_guest : (db : Db) (g : Guest) {ctx : Context} → guest_context g ≡ ctx → IsOwnUser db ctx
own_guest db g same = subst (IsOwnUser db) same (λ v e. cc)

ok_injective : (a b : Context) → ◌≡◌ {A = AuthResult Context} (ok a) (ok b) → a ≡ b
ok_injective a b h = cc

admin_of :
    (db : Db) (x : Context)
    → is_admin_context x ≡ true
    → IsOwnUser db x
    → (u : User) × (get_by_id x.id db ≡ some u) × (u.is_admin ≡ true)
admin_of db x admin own = elim (Option-cases x.user) [
  | inl nobody ↦ cc (rw (is_admin_context, nobody) at admin)
  | inr (u, is_u) ↦ (u, own u is_u, rw (is_admin_context, is_u) at admin)
]

context_of_claims-IsOfClaims :
    (c : UserClaims) (db : Db) (ctx : Context)
    → context_of_claims c db ≡ ok ctx
    → IsOfClaims c db ctx × IsOwnUser db ctx
unfolding context_of_claims
context_of_claims-IsOfClaims c db ctx h = elim (Option-cases (get_by_id c.user_id db)) [
  | inl missing ↦ cc (rw (context_of_claims, missing) at h)
  | inr (u, found) ↦ elim (Bool-cases (u.is_admin && not (c.impersonation_id == ""))) [
    | inr plain ↦
        let same =
          ok_injective (user_context u c.user_id) ctx (rw (context_of_claims, found, plain) at h) in
        (subst (IsOfClaims c db) same (u, found, inl refl), own_user db u c.user_id found same)
    | inl acting ↦
        let admin : u.is_admin ≡ true = ground arith in
        elim (Bool-cases (is_guest_id c.impersonation_id)) [
          | inl guest ↦
              let g : Guest = record { id = c.impersonation_id; display_name = c.display_name } in
              let same =
                ok_injective (guest_context g) ctx
                  (rw (context_of_claims, found, acting, guest) at h) in
              (subst (IsOfClaims c db) same (u, found, inr (admin, refl)), own_guest db g same)
          | inr user ↦ elim (Option-cases (get_by_id c.impersonation_id db)) [
            | inl missing ↦ cc (rw (context_of_claims, found, acting, user, missing) at h)
            | inr (other, its) ↦
                let same =
                  ok_injective (user_context other c.impersonation_id) ctx
                    (rw (context_of_claims, found, acting, user, its) at h) in
                (
                  subst (IsOfClaims c db) same (u, found, inr (admin, refl)),
                  own_user db other c.impersonation_id its same,
                )
          ]
        ]
  ]
]

user_context_of_claims-IsOfClaims :
    (c : UserClaims) (db : Db) (ctx : Context)
    → user_context_of_claims c db ≡ ok ctx
    → IsOfClaims c db ctx × IsOwnUser db ctx
unfolding user_context_of_claims
user_context_of_claims-IsOfClaims c db ctx h = elim (Option-cases (get_by_id c.user_id db)) [
  | inl missing ↦ cc (rw (user_context_of_claims, missing) at h)
  | inr (u, found) ↦ elim (Bool-cases (u.is_admin && not (c.impersonation_id == ""))) [
    | inr plain ↦
        let same =
          ok_injective (user_context u c.user_id) ctx
            (rw (user_context_of_claims, found, plain) at h) in
        (subst (IsOfClaims c db) same (u, found, inl refl), own_user db u c.user_id found same)
    | inl acting ↦
        let admin : u.is_admin ≡ true = ground arith in
        elim (Option-cases (get_by_id c.impersonation_id db)) [
          | inl missing ↦ cc (rw (user_context_of_claims, found, acting, missing) at h)
          | inr (other, its) ↦
              let same =
                ok_injective (user_context other c.impersonation_id) ctx
                  (rw (user_context_of_claims, found, acting, its) at h) in
              (
                subst (IsOfClaims c db) same (u, found, inr (admin, refl)),
                own_user db other c.impersonation_id its same,
              )
        ]
  ]
]

module _ (read_user : ℕ → String → Option UserClaims) (read_guest : ℕ → String → Option GuestClaims)
    (now : ℕ) where
  -- The token names an account that the context is of, or is a guest's with the context's id.
  abbrev pub IsAllowed : String → Db → Context → Type 0
  IsAllowed token db ctx =
      ((c : UserClaims) × (validate_user_token read_user read_guest now token ≡ some c)
        × IsOfClaims c db ctx)
      ⊎ ((g : GuestClaims) × (validate_guest_token read_user read_guest now token ≡ some g)
          × (ctx.id ≡ g.id))

  -- Whom RequireUserOrGuestAuth lets in has a good token: of a live account, whose id is the context's or which is an
  -- admin's acting as that id; or of the guest of that id. The user of the context, if any, is the live account of its id.
  pub require_user_or_guest_auth-IsAllowed :
      (header parameter : String) (db : Db) {ctx : Context}
      → require_user_or_guest_auth read_user read_guest now header parameter db ≡ ok ctx
      → IsAllowed (token_of header parameter) db ctx × IsOwnUser db ctx
  unfolding require_user_or_guest_auth
  require_user_or_guest_auth-IsAllowed header parameter db {ctx = ctx} h =
      let token = token_of header parameter in
      elim (Bool-cases (token == "")) [
        | inl missing ↦ cc (rw (require_user_or_guest_auth, missing) at h)
        | inr given ↦ elim (Option-cases (validate_user_token read_user read_guest now token)) [
          | inr (c, valid) ↦
              let (of, own) =
                context_of_claims-IsOfClaims c db ctx
                  (rw (require_user_or_guest_auth, given, valid) at h) in
              (inl (c, valid, of), own)
          | inl no_user ↦
              elim (Option-cases (validate_guest_token read_user read_guest now token)) [
                | inl nobody ↦ cc (rw (require_user_or_guest_auth, given, no_user, nobody) at h)
                | inr (g, valid) ↦
                    let same =
                      ok_injective (guest_context (guest_of g)) ctx
                        (rw (require_user_or_guest_auth, given, no_user, valid) at h) in
                    (
                      inr (g, valid, ap (λ (x : Context). x.id) (sym same)),
                      own_guest db (guest_of g) same,
                    )
              ]
        ]
      ]

  require_user_auth-IsOfClaims :
      (header parameter : String) (db : Db) {ctx : Context}
      → require_user_auth read_user read_guest now header parameter db ≡ ok ctx
      → ((c : UserClaims) × (validate_user_token read_user read_guest now
              (token_of header parameter)
            ≡ some c)
          × IsOfClaims c db ctx)
        × IsOwnUser db ctx
  unfolding require_user_auth
  require_user_auth-IsOfClaims header parameter db {ctx = ctx} h =
      let token = token_of header parameter in
      elim (Bool-cases (token == "")) [
        | inl missing ↦ cc (rw (require_user_auth, missing) at h)
        | inr given ↦ elim (Option-cases (validate_user_token read_user read_guest now token)) [
          | inl nobody ↦ cc (rw (require_user_auth, given, nobody) at h)
          | inr (c, valid) ↦
              let (of, own) =
                user_context_of_claims-IsOfClaims c db ctx
                  (rw (require_user_auth, given, valid) at h) in
              ((c, valid, of), own)
        ]
      ]

  -- Whom RequireAdmin lets in is the live account of the context's id, and an admin's.
  pub require_admin-IsAdmin :
      (header parameter : String) (db : Db) {ctx : Context}
      → require_admin read_user read_guest now header parameter db ≡ ok ctx
      → (u : User) × (get_by_id ctx.id db ≡ some u) × (u.is_admin ≡ true)
  unfolding require_admin
  require_admin-IsAdmin header parameter db {ctx = ctx} h =
      elim (AuthResult-cases (require_user_auth read_user read_guest now header parameter db)) [
        | inl (e, refused) ↦ cc (rw (require_admin, refused) at h)
        | inr (x, passed) ↦ elim (Bool-cases (is_admin_context x)) [
          | inr plain ↦ cc (rw (require_admin, passed, plain) at h)
          | inl admin ↦
              let same = ok_injective x ctx (rw (require_admin, passed, admin) at h) in
              subst
                (λ (y : Context). (u : User) × (get_by_id y.id db ≡ some u) × (u.is_admin ≡ true))
                same
                (admin_of db x admin (require_user_auth-IsOfClaims header parameter db passed).1)
        ]
      ]
