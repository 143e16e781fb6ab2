-- ===== src/Policy/Rules.antt =====
-- app/policy.py: the first half of `RULES`, section by section.
use bless_forge.Base.{true, false, List, [], ◌∷◌}
use bless_forge.Policy.Entry.{Rule, admin, any, node, public, rule}

-- `RULES`: open
unfoldable pub open_rules : List Rule
unfolding rule
open_rules =
    rule "GET" "/api/healthz" public false
    ∷ rule "GET" "/api/status" public false
    ∷ rule "POST" "/api/auth/login" public false
    ∷ rule "POST" "/api/auth/login/2fa" public false
    ∷ rule "GET" "/api/auth/session" public false
    ∷ rule "POST" "/api/auth/logout" any false
    ∷ rule "POST" "/api/auth/password" any false
    ∷ rule "GET" "/api/auth/2fa" any false
    ∷ rule "POST" "/api/auth/2fa/setup" any false
    ∷ rule "POST" "/api/auth/2fa/enable" any false
    ∷ rule "POST" "/api/auth/2fa/disable" any false
    ∷ rule "POST" "/api/auth/2fa/recovery" any false
    ∷ rule "GET" "/api/auth/tokens" any false
    ∷ rule "POST" "/api/auth/tokens" any false
    ∷ rule "DELETE" "/api/auth/tokens/{token_id}" any false
    ∷ []

-- `RULES`: the node agents (node token
unfoldable pub node_rules : List Rule
unfolding rule
node_rules =
    rule "GET" "/api/agent/servers" node false
    ∷ rule "POST" "/api/agent/events" node false
    ∷ rule "POST" "/api/agent/sftp-auth" node false
    ∷ []

-- `RULES`: admin only
unfoldable pub admin_rules : List Rule
unfolding rule
admin_rules =
    rule "*" "/api/admin/nodes" admin false
    ∷ rule "GET" "/api/admin/nodes/{node_id}/system" admin false
    ∷ rule "*" "/api/admin/users" admin false
    ∷ rule "*" "/api/admin/users/{username}" admin false
    ∷ rule "*" "/api/admin/users/{username}/password" admin false
    ∷ rule "*" "/api/admin/users/{username}/sessions" admin false
    ∷ rule "*" "/api/admin/users/{username}/2fa" admin false
    ∷ rule "*" "/api/admin/users/{username}/servers" admin false
    ∷ rule "*" "/api/admin/users/{username}/servers/{server_id}" admin false
    ∷ rule "*" "/api/admin/tokens" admin false
    ∷ rule "*" "/api/admin/tokens/{token_id}" admin false
    ∷ rule "GET" "/api/instances/{server_id}/access" admin false
    ∷ rule "GET" "/api/admin/audit" admin false
    ∷ rule "*" "/api/admin/status-page" admin false
    ∷ rule "GET" "/api/admin/audit/actions" admin false
    ∷ rule "GET" "/api/admin/permissions" admin false
    ∷ []

-- `RULES`: reading the fleet
unfoldable pub fleet_rules : List Rule
unfolding rule
fleet_rules =
    rule "GET" "/api/health" any false
    ∷ rule "GET" "/api/instances" any false
    ∷ rule "GET" "/api/nodes/memory" any false
    ∷ rule "GET" "/api/nodes/ports" any false
    ∷ rule "POST" "/api/fleet/seen" any false
    ∷ rule "GET" "/api/fleet/groups" any false
    ∷ rule "GET" "/api/fleet/history" any false
    ∷ rule "GET" "/api/fleet/events" any false
    ∷ rule "POST" "/api/fleet/groups" "racks.manage" false
    ∷ rule "POST" "/api/fleet/groups/plan" "racks.manage" false
    ∷ rule "DELETE" "/api/fleet/groups/{group_id}" "racks.manage" false
    ∷ rule "POST" "/api/fleet/assign" "racks.manage" false
    ∷ []

-- `RULES`: one server: power
unfoldable pub power_rules : List Rule
unfolding rule
power_rules =
    rule "GET" "/api/instances/{server_id}" "server.view" true
    ∷ rule "DELETE" "/api/instances/{server_id}" "server.delete" true
    ∷ rule "POST" "/api/instances/{server_id}/action/{action}" "server.power" true
    ∷ rule "GET" "/api/instances/{server_id}/stats" "server.view" true
    ∷ rule "GET" "/api/instances/{server_id}/history" "server.view" true
    ∷ rule "GET" "/api/instances/{server_id}/jar" "server.view" true
    ∷ rule "GET" "/api/instances/{server_id}/voicechat" "server.view" true
    ∷ rule "POST" "/api/instances/{server_id}/voicechat" "config.edit" true
    ∷ rule "POST" "/api/instances/{server_id}/jar/update" "mods.manage" true
    ∷ rule "GET" "/api/instances/{server_id}/port" "server.view" true
    ∷ rule "POST" "/api/instances/{server_id}/port" "tune.apply" true
    ∷ []

-- `RULES`: console
unfoldable pub console_rules : List Rule
unfolding rule
console_rules =
    rule "GET" "/api/instances/{server_id}/console" "console.read" true
    ∷ rule "GET" "/api/instances/{server_id}/console/socket" "console.read" true
    ∷ rule "GET" "/api/instances/{server_id}/console/stream" "console.read" true
    ∷ rule "GET" "/api/instances/{server_id}/console/ws" "console.read" true
    ∷ rule "GET" "/api/instances/{server_id}/logs" "console.read" true
    ∷ rule "POST" "/api/instances/{server_id}/command" "console.command" true
    ∷ []

-- `RULES`: files
unfoldable pub file_rules : List Rule
unfolding rule
file_rules =
    rule "GET" "/api/instances/{server_id}/files" "files.read" true
    ∷ rule "GET" "/api/instances/{server_id}/files/read" "files.read" true
    ∷ rule "GET" "/api/instances/{server_id}/files/download" "files.read" true
    ∷ rule "POST" "/api/instances/{server_id}/files/transfer" "files.read" true
    ∷ rule "GET" "/api/instances/{server_id}/files/search" "files.read" true
    ∷ rule "GET" "/api/instances/{server_id}/files/usage" "files.read" true
    ∷ rule "POST" "/api/instances/{server_id}/files/write" "files.write" true
    ∷ rule "POST" "/api/instances/{server_id}/files/create" "files.write" true
    ∷ rule "POST" "/api/instances/{server_id}/files/delete" "files.write" true
    ∷ rule "POST" "/api/instances/{server_id}/files/rename" "files.write" true
    ∷ rule "POST" "/api/instances/{server_id}/files/extract" "files.write" true
    ∷ rule "POST" "/api/instances/{server_id}/files/upload" "files.write" true
    ∷ []

-- `RULES`: mods and plugins
unfoldable pub mod_rules : List Rule
unfolding rule
mod_rules =
    rule "GET" "/api/instances/{server_id}/mods" "server.view" true
    ∷ rule "GET" "/api/instances/{server_id}/mods/updates" "server.view" true
    ∷ rule "GET" "/api/instances/{server_id}/mods/dependencies" "server.view" true
    ∷ rule "POST" "/api/instances/{server_id}/mods/icons" "server.view" true
    ∷ rule "POST" "/api/instances/{server_id}/mods/identify" "server.view" true
    ∷ rule "POST" "/api/instances/{server_id}/mods/resolve" "mods.manage" true
    ∷ rule "POST" "/api/instances/{server_id}/mods/add" "mods.manage" true
    ∷ rule "POST" "/api/instances/{server_id}/mods/toggle" "mods.manage" true
    ∷ rule "POST" "/api/instances/{server_id}/mods/bulk-toggle" "mods.manage" true
    ∷ rule "POST" "/api/instances/{server_id}/mods/delete" "mods.manage" true
    ∷ rule "POST" "/api/instances/{server_id}/plugins/add" "mods.manage" true
    ∷ rule "POST" "/api/instances/{server_id}/plugins/resolve" "mods.manage" true
    ∷ rule "GET" "/api/instances/{server_id}/plugins/audit" "server.view" true
    ∷ rule "POST" "/api/instances/{server_id}/switch-pack-version" "mods.manage" true
    ∷ rule "POST" "/api/instances/{server_id}/client-scan" "server.view" true
    ∷ rule "POST" "/api/instances/{server_id}/client-scan/apply" "mods.manage" true
    ∷ []

-- `RULES`: configs
unfoldable pub config_rules : List Rule
unfolding rule
config_rules =
    rule "GET" "/api/instances/{server_id}/configs" "files.read" true
    ∷ rule "GET" "/api/instances/{server_id}/configs/read" "files.read" true
    ∷ rule "POST" "/api/instances/{server_id}/configs/write" "config.edit" true
    ∷ rule "GET" "/api/instances/{server_id}/properties" "files.read" true
    ∷ rule "POST" "/api/instances/{server_id}/properties" "config.edit" true
    ∷ []

-- `RULES`: players
unfoldable pub player_rules : List Rule
unfolding rule
player_rules =
    rule "GET" "/api/instances/{server_id}/players" "server.view" true
    ∷ rule "POST" "/api/instances/{server_id}/players/action" "players.manage" true
    ∷ rule "POST" "/api/instances/{server_id}/players/bulk" "players.manage" true
    ∷ rule "POST" "/api/instances/{server_id}/players/note" "players.manage" true
    ∷ rule "POST" "/api/instances/{server_id}/players/whitelist-mode" "players.manage" true
    ∷ []

-- `RULES`: backups
unfoldable pub backup_rules : List Rule
unfolding rule
backup_rules =
    rule "GET" "/api/instances/{server_id}/backups" "server.view" true
    ∷ rule "POST" "/api/instances/{server_id}/backups" "backups.make" true
    ∷ rule "POST" "/api/instances/{server_id}/backups/{snap_id}/restore" "backups.restore" true
    ∷ []
