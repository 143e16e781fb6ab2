-- ===== src/Schedules/Tasks.antt =====
-- app/schedules.py: the rows of tasks and `_clean`. The values of a payload are of the kinds that the
-- code takes, numbers are naturals, and a text that is missing or null is empty.
use bless_forge.Base.{
  ℕ, ◌≡◌, sym, ap, ◌∙◌, inl, inr, Bool, not, ◌&&◌, Option, none, some, List, [], ◌∷◌, leb, eqb,
  if◌then◌else◌, Bool-cases, nat_eq, string_eq, Text, text_eq, codes, length, take, is_empty, get,
  Result, ok, err, ◌>>=◌, ◌>>◌, raise, check, >>=-eq-ok,
}
use bless_forge.Base.Strings.{strip}
use bless_forge.Properties.Lines.{splitlines}

-- `ACTIONS`
pub data Action : Type 0 where
  command : Action
  say : Action
  start : Action
  stop : Action
  restart : Action
  backup : Action
  update_jar : Action

abbrev pub actions : List (Text × Action)
actions =
    (codes "command", command)
    ∷ (codes "say", say)
    ∷ (codes "start", start)
    ∷ (codes "stop", stop)
    ∷ (codes "restart", restart)
    ∷ (codes "backup", backup)
    ∷ (codes "update_jar", update_jar)
    ∷ []

-- What `run_task` records
pub record Last : Type 0 where
  pub last_run : ℕ
  pub last_result : Text
  pub last_ok : Bool

pub record Payload : Type 0 where
  pub name : Text
  pub command : Text
  pub message : Text
  pub keep : Option ℕ
  pub tz : Text
  pub one_time : Bool
  pub parent : Option ℕ
  pub delay : ℕ
  pub group : Text
  pub last : Option Last

-- A row of `schedules`
pub record Task : Type 0 where
  pub id : ℕ
  pub server_id : Text
  pub cron : Text
  pub action : Action
  pub payload : Payload
  pub enabled : Bool
  pub next_run : Option ℕ

-- The table, with the id that the next row gets
pub record Table : Type 0 where
  pub tasks : List Task
  pub next_id : ℕ

abbrev action_or_refuse : Option Action → Result Action
action_or_refuse none =
    raise "action is one of command, say, start, stop, restart, backup, update_jar" 400
action_or_refuse (some a) = ok a

abbrev pub action_of : Text → Result Action
action_of text = action_or_refuse (get actions text)

-- `action.title()`
abbrev title : Action → Text
title command = codes "Command"
title say = codes "Say"
title start = codes "Start"
title stop = codes "Stop"
title restart = codes "Restart"
title backup = codes "Backup"
title update_jar = codes "Update_Jar"

-- `lstrip("/")`
abbrev without_slashes : Text → Text
without_slashes [] = []
without_slashes (c ∷ s) = let rest = without_slashes s in if eqb c b'/' then rest else c ∷ s

abbrev one_line : Text → Result Text
one_line text =
    check (not (is_empty text) && (eqb (length (splitlines text)) 1 && leb (length text) 256))
      "a task needs one line of text, up to 256 characters" 400
    >> ok text

abbrev command_line : Action → Payload → Result Text
command_line command p = one_line (without_slashes (strip p.command))
command_line other p = ok []

abbrev message_line : Action → Payload → Result Text
message_line say p = one_line (strip p.message)
message_line other p = ok []

abbrev kept_backups : Action → Option ℕ → Result (Option ℕ)
kept_backups backup (some keep) =
    check (leb 1 keep && leb keep 500) "keep is between 1 and 500" 400 >> ok (some keep)
kept_backups other keep = ok none

abbrev pub delay_of : Option ℕ → ℕ → Result ℕ
delay_of none delay = ok 0
delay_of (some parent) delay =
    check (leb delay 86400) "a step runs 0 seconds to 24 hours after the one before" 400 >> ok delay

unfoldable pub clean_payload : Action → Payload → Result Payload
unfolding strip splitlines
clean_payload a p = do
  line ← command_line a p
  message ← message_line a p
  keep ← kept_backups a p.keep
  delay ← delay_of p.parent p.delay
  ok (record {
    name = take 80 (if is_empty p.name then title a else p.name);
    command = line;
    message = message;
    keep = keep;
    tz = take 64 p.tz;
    one_time = p.one_time;
    parent = p.parent;
    delay = delay;
    group = take 80 p.group;
    last = none;
  })

abbrev parent_of : Result Payload → Option ℕ
parent_of (ok p) = p.parent
parent_of (err problem) = none

-- A step stays chained after the parent that its payload names
pub clean_payload-parent :
    (a : Action) (p : Payload) {out : Payload} → clean_payload a p ≡ ok out → out.parent ≡ p.parent
unfolding clean_payload
clean_payload-parent a p {out} e =
    let (line, _, e1) = >>=-eq-ok (command_line a p) _ e in
    let (message, _, e2) = >>=-eq-ok (message_line a p) _ e1 in
    let (keep, _, e3) = >>=-eq-ok (kept_backups a p.keep) _ e2 in
    let (delay, _, e4) = >>=-eq-ok (delay_of p.parent p.delay) _ e3 in sym (ap parent_of e4)

abbrev delay_in : Result Payload → ℕ
delay_in (ok p) = p.delay
delay_in (err problem) = 0

delay_of-some : (id delay : ℕ) {out : ℕ} → delay_of (some id) delay ≡ ok out → out ≡ delay
delay_of-some id delay {out} e = elim (Bool-cases (leb delay 86400)) [
  | inl fits ↦ let q : ok delay ≡ ok out = rw fits at e in cc
  | inr long ↦ let q = rw long at e in cc
]

-- and runs as long after it as its payload says
pub clean_payload-delay :
    (a : Action) (p : Payload) {out : Payload}
    → clean_payload a p ≡ ok out
    → (id : ℕ) → p.parent ≡ some id
    → out.delay ≡ p.delay
unfolding clean_payload
clean_payload-delay a p {out} e id parent =
    let (line, _, e1) = >>=-eq-ok (command_line a p) _ e in
    let (message, _, e2) = >>=-eq-ok (message_line a p) _ e1 in
    let (keep, _, e3) = >>=-eq-ok (kept_backups a p.keep) _ e2 in
    let (delay, d, e4) = >>=-eq-ok (delay_of p.parent p.delay) _ e3 in
    sym (ap delay_in e4) ∙ delay_of-some id p.delay (ap (λ o. delay_of o p.delay) (sym parent) ∙ d)

one_line-ok : (text : Text) {out : Text} → one_line text ≡ ok out → out ≡ text
one_line-ok text {out} e =
    elim (Bool-cases
      (not (is_empty text) && (eqb (length (splitlines text)) 1 && leb (length text) 256))) [
        | inl fits ↦ let q : ok text ≡ ok out = rw fits at e in cc
        | inr other ↦ let q = rw other at e in cc
      ]

abbrev message_in : Result Payload → Text
message_in (ok p) = p.message
message_in (err problem) = []

-- What is said is the message without the blanks around it
pub clean_payload-message :
    (a : Action) (p : Payload) {out : Payload}
    → clean_payload a p ≡ ok out
    → a ≡ say
    → out.message ≡ strip p.message
unfolding clean_payload
clean_payload-message a p {out} e said =
    let (line, _, e1) = >>=-eq-ok (command_line a p) _ e in
    let (message, d, e2) = >>=-eq-ok (message_line a p) _ e1 in
    let (keep, _, e3) = >>=-eq-ok (kept_backups a p.keep) _ e2 in
    let (delay, _, e4) = >>=-eq-ok (delay_of p.parent p.delay) _ e3 in
    sym (ap message_in e4)
    ∙ one_line-ok (strip p.message) (ap (λ b. message_line b p) (sym said) ∙ d)
