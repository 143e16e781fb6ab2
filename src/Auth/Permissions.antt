-- ===== src/Auth/Permissions.antt =====
-- app/auth.py: the permissions, the roles and what each role grants.
use bless_forge.Base.{String, List, [], ◌∷◌}

-- `PERMISSIONS`, the keys
abbrev pub permissions : List String
permissions =
    "server.view" ∷ "server.power" ∷ "server.kill" ∷ "console.read" ∷ "console.command"
    ∷ "files.read" ∷ "files.write" ∷ "mods.manage" ∷ "config.edit" ∷ "players.manage"
    ∷ "backups.make" ∷ "backups.restore" ∷ "tune.apply" ∷ "schedules.manage" ∷ "server.create"
    ∷ "server.delete" ∷ "roulette.use" ∷ "racks.manage" ∷ []

abbrev pub default_permissions : List String
default_permissions = "server.view" ∷ "console.read" ∷ "files.read" ∷ []

abbrev pub global_permissions : List String
global_permissions = "server.create" ∷ "roulette.use" ∷ "racks.manage" ∷ []

-- `ROLES`, the keys
abbrev pub roles : List String
roles = "admin" ∷ "operator" ∷ "member" ∷ "guest" ∷ []

abbrev pub role_permissions : List (String × List String)
role_permissions =
    ("admin", permissions)
    ∷ (
      "operator",
      "server.view" ∷ "server.power" ∷ "server.kill" ∷ "console.read" ∷ "console.command"
          ∷ "files.read" ∷ "files.write" ∷ "mods.manage" ∷ "config.edit" ∷ "players.manage"
          ∷ "backups.make" ∷ "tune.apply" ∷ "schedules.manage" ∷ "roulette.use" ∷ [],
    )
    ∷ ("member", "server.view" ∷ "console.read" ∷ "console.command" ∷ "files.read" ∷ [])
    ∷ ("guest", "server.view" ∷ [])
    ∷ []
