-- ===== src/Policy/MoreRules.antt =====
-- app/policy.py: the second half of `RULES`, section by section.
use bless_forge.Base.{true, false, List, [], ◌∷◌}
use bless_forge.Policy.Entry.{Rule, admin, any, rule}

-- `RULES`: diagnosis
unfoldable pub tuning_rules : List Rule
unfolding rule
tuning_rules =
    rule "GET" "/api/instances/{server_id}/diagnose" "server.view" true
    ∷ rule "GET" "/api/instances/{server_id}/crash-review" "server.view" true
    ∷ rule "POST" "/api/instances/{server_id}/deep-scan" "server.view" true
    ∷ rule "POST" "/api/instances/{server_id}/smoke-test" "server.power" true
    ∷ rule "POST" "/api/instances/{server_id}/repair" "mods.manage" true
    ∷ rule "GET" "/api/instances/{server_id}/spark" "server.view" true
    ∷ rule "GET" "/api/instances/{server_id}/perf" "server.view" true
    ∷ rule "POST" "/api/instances/{server_id}/mods/blocked" "mods.manage" true
    ∷ rule "POST" "/api/instances/{server_id}/perf/apply" "tune.apply" true
    ∷ rule "POST" "/api/instances/{server_id}/cpu" "tune.apply" true
    ∷ rule "POST" "/api/instances/{server_id}/autostart" "tune.apply" true
    ∷ rule "GET" "/api/instances/{server_id}/lifecycle" "server.view" true
    ∷ rule "GET" "/api/instances/{server_id}/schedules" "server.view" true
    ∷ rule "POST" "/api/instances/{server_id}/schedules" "schedules.manage" true
    ∷ rule "POST" "/api/instances/{server_id}/schedules/preset" "schedules.manage" true
    ∷ rule "PATCH" "/api/instances/{server_id}/schedules/{schedule_id}" "schedules.manage" true
    ∷ rule "DELETE" "/api/instances/{server_id}/schedules/{schedule_id}" "schedules.manage" true
    ∷ rule "POST" "/api/instances/{server_id}/schedules/{schedule_id}/run" "schedules.manage" true
    ∷ rule "GET" "/api/schedules/preview" "server.view" false
    ∷ rule "GET" "/api/instances/{server_id}/worldbackups" "server.view" true
    ∷ rule "POST" "/api/instances/{server_id}/worldbackups" "backups.make" true
    ∷ rule "GET" "/api/instances/{server_id}/worldbackups/settings" "server.view" true
    ∷ rule "POST" "/api/instances/{server_id}/worldbackups/settings" "backups.make" true
    ∷ rule "POST" "/api/instances/{server_id}/worldbackups/{snapshot_id}/restore" "backups.restore"
        true
    ∷ rule "DELETE" "/api/instances/{server_id}/worldbackups/{snapshot_id}" "backups.restore" true
    ∷ rule "GET" "/api/instances/{server_id}/worldbackups/{snapshot_id}/download" "backups.make"
        true
    ∷ rule "POST" "/api/instances/{server_id}/lifecycle" "tune.apply" true
    ∷ rule "POST" "/api/instances/{server_id}/perf/install" "mods.manage" true
    ∷ rule "POST" "/api/instances/{server_id}/pregen" "console.command" true
    ∷ rule "POST" "/api/instances/{server_id}/spark/install" "mods.manage" true
    ∷ rule "POST" "/api/instances/{server_id}/spark/health" "console.command" true
    ∷ rule "POST" "/api/instances/{server_id}/spark/profile" "console.command" true
    ∷ rule "POST" "/api/instances/{server_id}/fix/dependency" "mods.manage" true
    ∷ rule "GET" "/api/instances/{server_id}/optimize" "server.view" true
    ∷ rule "POST" "/api/instances/{server_id}/optimize" "tune.apply" true
    ∷ rule "POST" "/api/instances/{sid}/optimize/advice" "server.view" true
    ∷ rule "POST" "/api/instances/{server_id}/fix/accept-eula" "config.edit" true
    ∷ rule "POST" "/api/instances/{server_id}/fix/java" "tune.apply" true
    ∷ rule "POST" "/api/instances/{server_id}/fix/set-ram" "tune.apply" true
    ∷ rule "POST" "/api/instances/{server_id}/fix/versions" "mods.manage" true
    ∷ rule "POST" "/api/instances/{server_id}/loader/reinstall" "tune.apply" true
    ∷ rule "POST" "/api/instances/{server_id}/export" "files.read" true
    ∷ rule "GET" "/api/instances/{server_id}/roll" "server.view" true
    ∷ rule "GET" "/api/instances/{server_id}/roll-export" "files.read" true
    ∷ rule "POST" "/api/instances/{server_id}/ai/analyse" "server.view" true
    ∷ rule "POST" "/api/instances/{server_id}/ai/crash-review" "server.view" true
    ∷ rule "POST" "/api/instances/{server_id}/ai/apply" "tune.apply" true
    ∷ rule "POST" "/api/instances/{server_id}/ai/autofix" "tune.apply" true
    ∷ []

-- `RULES`: making servers
unfoldable pub create_rules : List Rule
unfolding rule
create_rules =
    rule "POST" "/api/install/modpack" "server.create" false
    ∷ rule "POST" "/api/install/preflight" "server.create" false
    ∷ rule "POST" "/api/provision/server" "server.create" false
    ∷ []

-- `RULES`: the catalogue
unfoldable pub catalogue_rules : List Rule
unfolding rule
catalogue_rules =
    rule "GET" "/api/browse/modpacks" any false
    ∷ rule "GET" "/api/browse/mods" any false
    ∷ rule "GET" "/api/browse/plugins" any false
    ∷ rule "GET" "/api/modpacks/{mod_id}" any false
    ∷ rule "GET" "/api/modpacks/{mod_id}/files" any false
    ∷ rule "GET" "/api/modpacks/{mod_id}/description" any false
    ∷ rule "GET" "/api/mods/{source}/{project_id}/versions" any false
    ∷ rule "GET" "/api/mods/{source}/{project_id}/detail" any false
    ∷ rule "GET" "/api/plugins/{project_id}/versions" any false
    ∷ rule "GET" "/api/plugins/meta" any false
    ∷ rule "GET" "/api/plugins/starter" any false
    ∷ rule "GET" "/api/loaders" any false
    ∷ rule "GET" "/api/loaders/{family}" any false
    ∷ rule "GET" "/api/meta/minecraft-versions" any false
    ∷ rule "GET" "/api/meta/categories" any false
    ∷ rule "GET" "/api/host/specs" any false
    ∷ rule "GET" "/api/players/lookup" any false
    ∷ rule "POST" "/api/diagnose/dependency" any false
    ∷ rule "GET" "/api/diagnose/dependency/{mod_id}" any false
    ∷ rule "GET" "/api/browse/modpacks/modrinth" any false
    ∷ rule "GET" "/api/modpacks/{mod_id}/files/{file_id}/plan" any false
    ∷ rule "GET" "/api/loaders/{family}/versions" any false
    ∷ []

-- `RULES`: roulette
unfoldable pub roulette_rules : List Rule
unfolding rule
roulette_rules =
    rule "GET" "/api/roulette/meta" any false
    ∷ rule "POST" "/api/roulette/roll" "roulette.use" false
    ∷ rule "POST" "/api/roulette/reroll" "roulette.use" false
    ∷ rule "POST" "/api/roulette/pool" "roulette.use" false
    ∷ rule "POST" "/api/roulette/export" "roulette.use" false
    ∷ rule "GET" "/api/roulette/export/{roll_id}" "roulette.use" false
    ∷ rule "POST" "/api/roulette/preview-export" "roulette.use" false
    ∷ rule "POST" "/api/roulette/install" "server.create" false
    ∷ []

-- `RULES`: jobs
unfoldable pub job_rules : List Rule
unfolding rule
job_rules =
    rule "GET" "/api/jobs" any false
    ∷ rule "GET" "/api/jobs/{job_id}" any false
    ∷ rule "GET" "/api/jobs/{job_id}/events" any false
    ∷ rule "POST" "/api/jobs/{job_id}/cancel" any false
    ∷ []

-- `RULES`: uploads
unfoldable pub upload_rules : List Rule
unfolding rule
upload_rules =
    rule "GET" "/api/uploads" "server.create" false
    ∷ rule "POST" "/api/uploads/modpack" "server.create" false
    ∷ rule "DELETE" "/api/uploads/{upload_id}" "server.create" false
    ∷ rule "GET" "/api/exports/{filename}" any false
    ∷ rule "GET" "/api/cache" admin false
    ∷ rule "POST" "/api/cache/prune" admin false
    ∷ rule "GET" "/api/updates" any false
    ∷ rule "POST" "/api/updates/check" any false
    ∷ []

-- `RULES`: the client-only decision list
unfoldable pub decision_rules : List Rule
unfolding rule
decision_rules =
    rule "GET" "/api/whitelist" any false
    ∷ rule "POST" "/api/whitelist" "mods.manage" false
    ∷ rule "DELETE" "/api/whitelist/{key}" "mods.manage" false
    ∷ rule "POST" "/api/whitelist/check" any false
    ∷ rule "POST" "/api/whitelist/clear" "mods.manage" false
    ∷ rule "GET" "/api/whitelist/export" any false
    ∷ rule "POST" "/api/whitelist/import" "mods.manage" false
    ∷ []

-- `RULES`: the assistant's own settings
unfoldable pub assistant_rules : List Rule
unfolding rule
assistant_rules =
    rule "GET" "/api/ai/status" any false
    ∷ rule "GET" "/api/ai/models" any false
    ∷ rule "GET" "/api/ai/endpoints" any false
    ∷ rule "GET" "/api/ai/tuning" any false
    ∷ rule "POST" "/api/ai/endpoint" admin false
    ∷ rule "POST" "/api/ai/pull" admin false
    ∷ rule "POST" "/api/ai/warm" admin false
    ∷ rule "POST" "/api/ai/tuning" admin false
    ∷ []
