-- ===== src/Auth/Bootstrap.antt =====
-- app/auth.py: the first start makes the first admin. The entry in the audit log is left out.
use mathlib.Core.Path.{subst}
use bless_forge.Base.{
  ◌≡◌, refl, ap, inl, inr, Bool, true, false, not, none, List, [], ◌∷◌, ◌++◌, arith, eqb,
  if◌then◌else◌, Bool-cases, is_some, nat_eq, string_eq, Text, text_eq, contains, codes, is_empty,
}
use bless_forge.Auth.Model.{Result, ok, err, >>=-eq-ok, raise, User, Account}
use bless_forge.Auth.Permissions.{roles}
use bless_forge.Auth.Accounts.{Library, default_password, normalise_username, hash_password}
use bless_forge.Auth.Store.{Db, row_of}
use bless_forge.Auth.Login.{NewUser, create_user, accept_password}

abbrev pub default_admin : Text
default_admin = codes "admin"

abbrev pub first_admin : NewUser
first_admin = record {
  username = default_admin;
  password = default_password;
  role = "admin";
  display = codes "Administrator";
  permissions = [];
  scope = none;
  must_change = true;
  enforce_policy = false;
}

unfoldable pub needs_bootstrap : Db → Bool
needs_bootstrap db = is_empty db.users

-- What `bootstrap` makes of `create_user`: a conflict means that another request was first.
unfoldable pub after_create : Db → Result (Db × Account) → Result (Db × Bool)
after_create db (ok (made, account)) = ok (made, true)
after_create db (err e) = if eqb e.status 409 then ok (db, false) else err e

-- `bootstrap`, with whether it created the account
unfoldable pub bootstrap : Library → Db → Text → Result (Db × Bool)
bootstrap lib db salt =
    let made = create_user lib db salt first_admin in
    if not (needs_bootstrap db) then ok (db, false) else after_create db made

abbrev users_of : Result (Db × Account) → List User
users_of (ok (made, account)) = made.users
users_of (err e) = []

is_empty-append : (us : List User) (u : User) → is_empty (us ++ (u ∷ [])) ≡ false
is_empty-append [] u = refl
is_empty-append (v ∷ us) u = refl

-- An account that was created is in the database.
create_user-adds :
    (lib : Library) (db : Db) (salt : Text) (new : NewUser) {made : Db} {account : Account}
    → create_user lib db salt new ≡ ok (made, account)
    → is_empty made.users ≡ false
unfolding create_user
create_user-adds lib db salt new h =
    let (name, _, h₁) = >>=-eq-ok (normalise_username lib new.username) _ h in
    let (_, _, h₂) =
      >>=-eq-ok (if contains roles new.role then ok tt else raise "Unknown role" 400) _ h₁ in
    let (_, _, h₃) =
      >>=-eq-ok (if new.enforce_policy then accept_password new.password else ok tt) _ h₂ in
    let (_, _, h₄) =
      >>=-eq-ok
        (if is_some (row_of lib db name) then raise "There is already a user called" 409 else ok tt)
        _ h₃ in
    let (hash, _, h₅) = >>=-eq-ok (hash_password lib salt new.password) _ h₄ in
    subst (λ us. is_empty us ≡ false) (ap users_of h₅) (is_empty-append db.users _)

-- Once bootstrap has created the first account it creates no other: it leaves the database that it
-- made as it is, whatever salt it would draw.
pub bootstrap_once :
    (lib : Library) (db : Db) (salt salt' : Text) {made : Db}
    → bootstrap lib db salt ≡ ok (made, true)
    → bootstrap lib made salt' ≡ ok (made, false)
unfolding bootstrap after_create
bootstrap_once lib db salt salt' {made} h = elim (Bool-cases (needs_bootstrap db)) [
  | inr e ↦ absurd (let k = rw e at h in cc)
  | inl e ↦
      let there = created (create_user lib db salt first_admin) refl (rw e at h) in
      unfold needs_bootstrap in rw there refl
]
  where
    created :
        (result : Result (Db × Account))
        → create_user lib db salt first_admin ≡ result
        → after_create db result ≡ ok (made, true)
        → is_empty made.users ≡ false
    created (ok (first, account)) same k =
        let e : first ≡ made = ground arith in
        subst (λ d. is_empty d.users ≡ false) e (create_user-adds lib db salt first_admin same)
    created (err e) same k = absurd (ground arith)
