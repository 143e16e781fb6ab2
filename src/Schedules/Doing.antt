-- ===== src/Schedules/Doing.antt =====
-- app/schedules.py: `_do`. What the engine, the backups and the jar updates answer is a parameter.
use bless_forge.Base.{
  String, ℕ, Bool, true, false, Option, [], ◌∷◌, ◌++◌, if◌then◌else◌, nat_eq, string_eq, Text,
  text_eq, codes, take, Result, ok, err,
}
use bless_forge.Schedules.Tasks.{
  Action, command, say, start, stop, restart, backup, update_jar, Payload, Task,
}

-- What `jarupdates.apply` answers
pub record JarUpdate : Type 0 where
  pub changed : Bool
  pub current : Text
  pub old : Text
  pub new : Text
  pub restarted : Bool

-- The calls that a task makes; `back_up` gives the backup's id and size
pub record Engine : Type 0 where
  pub is_running : Text → Result Bool
  pub send_command : Text → Text → Result (Unit {0})
  pub power : Text → Text → Result (Unit {0})
  pub back_up : Text → Text → Option ℕ → Result (Text × Text)
  pub apply_update : Text → Result JarUpdate

abbrev or_false : Result Bool → Bool
or_false (ok b) = b
or_false (err problem) = false

-- A call that fails is recorded on the task
abbrev told {ℓ} : {A : Type ℓ} → (A → Text) → Result A → Text × Bool
told tell (ok a) = (tell a, true)
told tell (err problem) = (take 300 (codes problem.message), false)

abbrev fine : String → Text × Bool
fine s = (codes s, true)

abbrev send_line : Engine → Text → Text → Text × Bool
send_line engine server line =
    told (λ _. codes "sent: " ++ take 120 line) (engine.send_command server line)

abbrev powered : Engine → Text → String → String → Text × Bool
powered engine server how tell = told (λ _. codes tell) (engine.power server (codes how))

abbrev or_unknown : Text → Text
or_unknown [] = codes "?"
or_unknown (c ∷ s) = c ∷ s

abbrev jar_text : JarUpdate → Text
jar_text out =
    if out.changed
    then codes "updated "
      ++ (or_unknown out.old
          ++ (codes " -> " ++ (out.new ++ (if out.restarted then codes ", restarted" else []))))
    else codes "already on the newest build (" ++ (out.current ++ codes ")")

abbrev or_scheduled : Text → Text
or_scheduled [] = codes "scheduled"
or_scheduled (c ∷ s) = c ∷ s

abbrev by_action : Engine → Bool → Text → Payload → Action → Text × Bool
by_action engine running server p command =
    if running then send_line engine server p.command else fine "skipped: the server is not running"
by_action engine running server p say =
    if running
    then send_line engine server (codes "say " ++ p.message)
    else fine "skipped: the server is not running"
by_action engine running server p start =
    if running then fine "skipped: already running" else powered engine server "start" "started"
by_action engine running server p stop =
    if running then powered engine server "stop" "stopped" else fine "skipped: not running"
by_action engine running server p restart =
    if running
    then powered engine server "restart" "restarted"
    else fine "skipped: not running, so nothing to restart"
by_action engine running server p backup =
    told
      (λ (made : Text × Text). codes "backup " ++ (made.0 ++ (codes " (" ++ (made.1 ++ codes ")"))))
      (engine.back_up server (or_scheduled p.name) p.keep)
by_action engine running server p update_jar = told jar_text (engine.apply_update server)

-- What a task did and how it went, for `run_due`
abbrev pub do_task : Engine → Task → Text × Bool
do_task engine row =
    by_action engine (or_false (engine.is_running row.server_id)) row.server_id row.payload
      row.action
