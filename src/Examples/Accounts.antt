-- ===== src/Examples/Accounts.antt =====
-- Changes of accounts, sessions and the first start.
use bless_forge.Base.{
  String, ℕ, ◌-◌, ◌<◌, ◌≡◌, refl, true, false, none, some, List, [], ◌∷◌, arith, nat_eq, string_eq,
  Text, text_eq, codes,
}
use bless_forge.Auth.Model.{ok, User, as_dict}
use bless_forge.Auth.Accounts.{normalise_username}
use bless_forge.Auth.Store.{
  Db, Changes, update_user, delete_user, row_of, require_row, find_row, put_row, delete_row,
  drop_sessions, enabled_admins, guard_last_admin, change_role, change_fields, change_disabled,
  change_lock, sessions_after,
}
use bless_forge.Auth.Admins.{admins}
use bless_forge.Auth.LastAdmin.{update_user-keeps_admin, delete_user-keeps_admin}
use bless_forge.Auth.Sessions.{find_user_id, session_user, start_session}
use bless_forge.Auth.SessionLaws.{session_user-start_session}
use bless_forge.Auth.Bootstrap.{bootstrap}
use bless_forge.Examples.Data.{person, plain_library, people, alice, bob, carol}

-- Bob is made an operator; Alice stays the only admin.
abbrev demote : Changes
demote = record {
  role = some "operator";
  display = none;
  permissions = none;
  scope = none;
  disabled = none;
  unlock = false;
}

abbrev bob_demoted : User
bob_demoted = record bob { role = "operator" }

abbrev after_demote : Db
after_demote = record people { users = alice ∷ bob_demoted ∷ carol ∷ [] }

demoted :
    update_user plain_library people (codes "bob") demote ≡ ok (after_demote, as_dict bob_demoted)
unfolding update_user require_row row_of normalise_username bless_forge.Base.Strings.lower
    bless_forge.Base.Strings.strip find_row change_role guard_last_admin enabled_admins
    change_disabled put_row sessions_after change_lock change_fields
demoted = refl

two_admins : 0 < admins people.users
unfolding enabled_admins
two_admins = omega arith

update_user-keeps_admin_example : 0 < admins after_demote.users
update_user-keeps_admin_example =
    update_user-keeps_admin plain_library people (codes "bob") demote two_admins demoted

abbrev after_delete : Db
after_delete = record people { users = alice ∷ carol ∷ [] }

removed : delete_user plain_library people (codes "bob") ≡ ok after_delete
unfolding delete_user require_row row_of normalise_username bless_forge.Base.Strings.lower
    bless_forge.Base.Strings.strip find_row guard_last_admin enabled_admins delete_row drop_sessions
removed = refl

delete_user-keeps_admin_example : 0 < admins after_delete.users
delete_user-keeps_admin_example =
    delete_user-keeps_admin plain_library people (codes "bob") two_admins removed

abbrev digest : Text → Text
digest token = token

abbrev no_grants : ℕ → List (Text × List String)
no_grants id = []

carol_found : find_user_id 3 people.users ≡ some carol
unfolding find_user_id
carol_found = refl

session_user-start_session_example :
    (session_user digest no_grants
      (start_session digest people 1000 (codes "tok") 3).0
      2000
      (codes "tok")).1
    ≡ some (as_dict carol)
session_user-start_session_example =
    session_user-start_session digest no_grants people 1000 2000 (codes "tok") carol refl
      carol_found refl (omega arith)

abbrev nobody_yet : Db
nobody_yet = record { users = []; sessions = []; next_id = 1 }

abbrev first_row : User
first_row = record (person 1 "admin" "admin") {
  display = codes "Administrator";
  password_hash = some (record {
    algo = "scrypt";
    n = 16384;
    r = 8;
    p = 1;
    salt = some (codes "s");
    hash = some (codes "spassword");
  });
  permissions = "server.view" ∷ "console.read" ∷ "files.read" ∷ [];
  must_change = true;
}

abbrev first_db : Db
first_db = record { users = first_row ∷ []; sessions = []; next_id = 2 }

first_start : bootstrap plain_library nobody_yet (codes "s") ≡ ok (first_db, true)
unfolding bootstrap bless_forge.Auth.Bootstrap.needs_bootstrap
    bless_forge.Auth.Bootstrap.after_create bless_forge.Auth.Login.create_user normalise_username
    bless_forge.Base.Strings.lower bless_forge.Base.Strings.strip row_of find_row
    bless_forge.Auth.Accounts.hash_password bless_forge.Auth.Store.display_name
    bless_forge.Auth.Rights.clean_scope
first_start = refl
