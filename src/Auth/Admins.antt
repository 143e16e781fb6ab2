-- ===== src/Auth/Admins.antt =====
-- About the enabled admins in each step of `update_user` and `delete_user` (app/auth.py).
use mathlib.Core.Path.{subst}
use bless_forge.Base.{
  String, ℕ, ◌+◌, ◌<◌, ◌≡◌, refl, sym, inl, inr, Bool, true, false, Option, none, some, List, [],
  ◌∷◌, arith, if◌then◌else◌, Bool-cases, ◌==◌, ==_iff, nat_eq, string_eq, Text, text_eq, ==_refl,
  length,
}
use bless_forge.Auth.Model.{ok, err, User}
use bless_forge.Auth.Accounts.{Library, normalise_username}
use bless_forge.Auth.Store.{
  Db, find_row, put_row, delete_row, is_enabled_admin, enabled_admins, any_id, guard_last_admin,
  Changes, change_role, change_fields, change_disabled, change_lock, row_of, require_row,
}

abbrev pub admins : List User → ℕ
admins us = length (enabled_admins us)

-- 1 for an enabled admin
abbrev pub weight : User → ℕ
weight u = if is_enabled_admin u then 1 else 0

admins-cons : (u : User) (us : List User) → admins (u ∷ us) ≡ weight u + admins us
unfolding enabled_admins
admins-cons u us = ground arith

pub admins-put_row :
    (users : List User) (row new : User)
    → find_row new.username users ≡ some row
    → admins (put_row new users) + weight row ≡ admins users + weight new
unfolding find_row put_row
admins-put_row [] row new h = cc
admins-put_row (u ∷ us) row new h = elim (Bool-cases (u.username == new.username)) [
  | inl e ↦
      let same : u ≡ row = ground arith in
      rw (e, admins-cons new us) (rw (← same) (omega (arith, admins-cons u us)))
  | inr e ↦
      let k : find_row new.username us ≡ some row = rw e at h in
      rw e (
        omega
          (arith, admins-cons u (put_row new us), admins-cons u us, admins-put_row us row new k))
]

pub admins-delete_row :
    (users : List User) (want : Text) (row : User)
    → find_row want users ≡ some row
    → admins (delete_row want users) + weight row ≡ admins users
unfolding find_row delete_row
admins-delete_row [] want row h = cc
admins-delete_row (u ∷ us) want row h = elim (Bool-cases (u.username == want)) [
  | inl e ↦
      let same : u ≡ row = ground arith in rw e (rw (← same) (omega (arith, admins-cons u us)))
  | inr e ↦
      let k : find_row want us ≡ some row = rw e at h in
      rw e (
        omega (
          arith,
          admins-cons u (delete_row want us),
          admins-cons u us,
          admins-delete_row us want row k,
        ))
]

-- An enabled admin is found among the admins that the guard counts.
any_id-enabled_admins :
    (users : List User) (want : Text) (row : User)
    → find_row want users ≡ some row
    → is_enabled_admin row ≡ true
    → any_id row.id (enabled_admins users) ≡ true
unfolding find_row enabled_admins any_id
any_id-enabled_admins [] want row h k = cc
any_id-enabled_admins (u ∷ us) want row h k = elim (Bool-cases (u.username == want)) [
  | inl e ↦
      let same : u ≡ row = ground arith in
      rw (← same) (let k' : is_enabled_admin u ≡ true = rw same k in rw k' (rw (==_refl u.id) refl))
  | inr e ↦ let rec = any_id-enabled_admins us want row (rw e at h) k in ground arith
]

find_row-username :
    (users : List User) (want : Text) (row : User)
    → find_row want users ≡ some row
    → row.username ≡ want
unfolding find_row
find_row-username [] want row h = cc
find_row-username (u ∷ us) want row h =
    ground (arith, ==_iff u.username want, find_row-username us want row)

pub find_row-put_row :
    (users : List User) (row new : User)
    → find_row new.username users ≡ some row
    → find_row new.username (put_row new users) ≡ some new
unfolding find_row put_row
find_row-put_row [] row new h = cc
find_row-put_row (u ∷ us) row new h =
    ground (arith, ==_refl new.username, find_row-put_row us row new)

module _ (users : List User) (some_admin : 0 < admins users) where
  pub guard_last_admin-ok :
      (want : Text) (row : User) {x : Unit {0}}
      → find_row want users ≡ some row
      → guard_last_admin users row ≡ ok x
      → weight row < admins users
  unfolding guard_last_admin
  guard_last_admin-ok want row f g = ground (arith, any_id-enabled_admins users want row f)

  pub change_role-ok :
      (want : Text) (change : Option String) (row row₁ : User)
      → find_row want users ≡ some row
      → change_role users change row ≡ ok row₁
      → weight row < admins users + weight row₁
  unfolding change_role
  change_role-ok want none row row₁ f c = let same : row ≡ row₁ = cc in rw (← same) (omega arith)
  change_role-ok want (some role) row row₁ f c =
      elim (guard_last_admin users row)
          as (λ g. guard_last_admin users row ≡ g → weight row < admins users + weight row₁) [
            | ok x ↦ λ g. ground (arith, guard_last_admin-ok want row f g)
            | err e ↦ λ g. ground arith
          ]
        refl

  pub change_disabled-ok :
      (want : Text) (change : Option Bool) (row row₁ : User)
      → find_row want users ≡ some row
      → change_disabled users change row ≡ ok row₁
      → weight row < admins users + weight row₁
  unfolding change_disabled
  change_disabled-ok want none row row₁ f c =
      let same : row ≡ row₁ = cc in rw (← same) (omega arith)
  change_disabled-ok want (some b) row row₁ f c =
      elim (guard_last_admin users row)
          as (λ g. guard_last_admin users row ≡ g → weight row < admins users + weight row₁) [
            | ok x ↦ λ g. ground (arith, guard_last_admin-ok want row f g)
            | err e ↦ λ g. ground arith
          ]
        refl

module _ (users : List User) (row row₁ : User) where
  pub change_role-username :
      (change : Option String)
      → change_role users change row ≡ ok row₁
      → row₁.username ≡ row.username
  unfolding change_role
  change_role-username none c = let same : row ≡ row₁ = cc in rw same refl
  change_role-username (some role) c =
      elim (guard_last_admin users row)
          as (λ g. guard_last_admin users row ≡ g → row₁.username ≡ row.username) [
            | ok x ↦ λ g. ground arith
            | err e ↦ λ g. ground arith
          ]
        refl

  pub change_disabled-username :
      (change : Option Bool)
      → change_disabled users change row ≡ ok row₁
      → row₁.username ≡ row.username
  unfolding change_disabled
  change_disabled-username none c = let same : row ≡ row₁ = cc in rw same refl
  change_disabled-username (some b) c =
      elim (guard_last_admin users row)
          as (λ g. guard_last_admin users row ≡ g → row₁.username ≡ row.username) [
            | ok x ↦ λ g. ground arith
            | err e ↦ λ g. ground arith
          ]
        refl

pub change_fields-keeps :
    (c : Changes) (row : User)
    → ((change_fields c row).username ≡ row.username) × (weight (change_fields c row) ≡ weight row)
unfolding change_fields
change_fields-keeps c row = (refl, refl)

pub change_lock-keeps :
    (unlock : Bool) (row : User)
    → ((change_lock unlock row).username ≡ row.username)
      × (weight (change_lock unlock row) ≡ weight row)
unfolding change_lock
change_lock-keeps true row = (refl, refl)
change_lock-keeps false row = (refl, refl)

pub require_row-ok :
    (lib : Library) (db : Db) (username : Text) (row : User)
    → require_row lib db username ≡ ok row
    → find_row row.username db.users ≡ some row
unfolding require_row row_of
require_row-ok lib db username row h =
    elim (normalise_username lib username)
        as (λ n. normalise_username lib username ≡ n → find_row row.username db.users ≡ some row) [
          | ok want ↦ λ n.
              let f : find_row want db.users ≡ some row = ground arith in
              subst (λ (w : Text). find_row w db.users ≡ some row)
                (sym (find_row-username db.users want row f)) f
          | err e ↦ λ n. ground arith
        ]
      refl
