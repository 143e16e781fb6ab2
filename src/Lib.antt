-- ===== src/Lib.antt =====
-- BlessForge's access control, jobs, schedules, file paths, world backups, racks and settings.
--
-- BlessForge is a panel for Minecraft servers. Every request to its API passes one middleware,
-- which finds the account behind it, looks the route up in a table of rules and asks the
-- account's rights. Long work runs as jobs, in the panel or in workers that share Redis, and
-- scheduled tasks run by a clock that several processes may look at. The files of a server live
-- on a node, whose agent checks every path again, and whose backups keep each file's content
-- once.
--
-- Parts, and the code they model:
--
-- - Base: tests on numbers and texts, lists measured by native numbers, Python's text
--   operations. A text is the list of its code points; names that the code fixes (roles,
--   permissions) are strings.
-- - Policy (app/policy.py): `Policy/Rules` and `Policy/MoreRules` are the rule table, section
--   by section; `Policy/Pattern` is the regular expression of a route pattern, as tokens;
--   `required` and `server_id_of` are the functions of those names. `Policy/Matching`,
--   `Policy/Scope`, `Policy/Safety` and `Policy/Open` are about the table.
-- - Auth (app/auth.py, with the rows of app/db/models.py): `Auth/Permissions` the lists,
--   `Auth/Rights` `effective_permissions`, `may` and `in_scope`, `Auth/Accounts` passwords and
--   names, `Auth/Store` `update_user` and `delete_user`, `Auth/Login` `create_user`,
--   `set_password` and `authenticate`, `Auth/Sessions` the sessions, `Auth/Bootstrap` the first
--   start.
-- - Access (app/access.py): `Access/Totp` one-time and recovery codes, `Access/Second` the
--   check of the second factor, `Access/Login` `finish_login`, `Access/Setup` turning it on and
--   off, `Access/Tokens` API tokens, `Access/Grants` permissions on one server. The other files
--   prove.
-- - Guard (app/main.py, `guard`): the middleware, composed of `required`, `may` and `in_scope`;
--   `Guard/Passed` and `Guard/Laws` are about it.
-- - Jobs (app/jobs.py): `Jobs/Job` a job, its frames and `run_job`; `Jobs/Registry` the records
--   in Redis, `_reconcile` and `_prune`.
-- - Schedules (app/schedules.py): `Schedules/Cron` `_field`, `Schedules/Spec` `parse`,
--   `Schedules/Calendar` `next_after` on days and minutes, `Schedules/Tasks` the rows and
--   `_clean`, `Schedules/Store` `create`, `update_task` and `remove` on the table,
--   `Schedules/Presets` `preset`, `Schedules/Doing` `_do`, `Schedules/Runs` `run_task` and
--   `run_due`, with `run_schedule_now` of app/main.py and the tasks that go with a server
--   (app/db/models.py), `Schedules/Claim` its claim, `Schedules/Remove` the loop of `remove`.
--   `Schedules/Tidy`, `Schedules/Kept`, `Schedules/Grown` and `Schedules/Changed` are about
--   what they keep of the table, `Schedules/Reached` has them as a step relation,
--   `Schedules/OnTime`, `Schedules/Dial`, `Schedules/Made` and `Schedules/Linked` are about the
--   chain of a daily restart. `Schedules/Minutes`, `Schedules/Next` and `Schedules/Fires` are
--   about the next run, `Schedules/Below`, `Schedules/Ends` and `Schedules/Endless` about the
--   end of the loop of `remove` and a cycle in it.
-- - Files: `Files/Paths` is `parts_of` and `check_name` of agent/files.py, `Files/Archive` its
--   `check_archive`; `Files/Panel` is `guard_path`, `guard_name`, `is_protected` and the guards
--   of `rename` and `delete` of app/files.py. `Files/Texts`, `Files/Clean`, `Files/Unpack` and
--   `Files/Worlds` are about them, the last about the two sides together.
-- - Snapshots (agent/worldbackup.py): `Snapshots/Model` is a server's `Store` with its objects,
--   manifests and index, `Snapshots/Walk` `_walk`, `Snapshots/Take` `take` and `_store_file`,
--   `Snapshots/Remove` `delete`, `keep_only` and `collect`, `Snapshots/Restore` `restore`. The
--   other files prove: `Snapshots/Views` has the abstract view, a map from ids to contents.
-- - Racks (app/fleetgroups.py): `Racks/Model` is the state in memory with `_clean_group`,
--   `_slug` and `_unique_id`, `Racks/Change` `save_group`, `delete_group`, `assign`, `plan` and
--   `forget`, `Racks/Document` `document`, `Racks/Observe` `observe`; `Racks/Seen`,
--   `Racks/Started` and `Racks/Watched` are about what it says of one server. `Racks/Reached`
--   has the changes as a step relation; the other files prove.
-- - Deps (app/deps.py): `Deps/Stems` `_stem`, `Deps/Pick` `_pick_file`, `Deps/Model` the
--   catalogue, a parameter, and the plan, `Deps/Resolve` `resolve` on Modrinth. The other files
--   prove: `Deps/Grows` and `Deps/Sound` about the plan, `Deps/Levels` about its depth,
--   `Deps/Sorts` and `Deps/Best` about the file that is picked.
-- - Properties (app/properties.py): `Properties/Lines` is `parse` and `render` with Python's
--   `splitlines`, `Properties/Edit` `coerce` and `save`, `Properties/Saved` about what is
--   written.
-- - Examples: concrete runs.
--
-- State is passed explicitly: an operation takes the database and returns the new one. Where
-- the code raises inside a database session the changes are rolled back, so the model returns
-- an error and no database; where it raises after the commit (`authenticate`, `finish_login`),
-- the new database stands beside the error; `preset` makes its tasks in sessions of their own,
-- so those made stay. An error is its status and the fixed part of its message; what is not one
-- of the code's own errors (TypeError, ValueError, struct.error) has status 500, save in Racks
-- and Properties, whose ValueErrors app/main.py answers with 400. Times are whole seconds, and
-- milliseconds in Jobs; percentages are tenths. Numbers are naturals, and a subtraction stops
-- at zero where the code's would be negative and is only compared.
--
-- Cryptography (scrypt, HMAC, Fernet, SHA-256), zlib, Unicode normalisation and the conversions
-- of text to numbers are fields of the records `Library`, `Crypto`, `Codec`, `Printing` and
-- `Reading`, the answers of Modrinth those of `Catalog`, the time zones those of `Zone` and the
-- calls that a task makes those of `Engine`; what a theorem needs of them is among its
-- hypotheses. Loops are recursion on the list they walk. Fuel is used four times: `stepped` has
-- one round for each number between the ends of a range, which is enough as a step is at least
-- one, and `drain`, the loop of `remove`, takes any number of rounds and says when they were
-- not enough; `Schedules/Ends` finds a number that is; `step_past` has a round for each second
-- until now, and its steps are a minute or more; `visit` of Deps has the levels that the guard
-- on the depth leaves it, and `Deps/Levels` shows that more change nothing. The days of
-- `search_days` are the 1830 of the code.
--
-- Not modelled: the audit log, the lists for the UI, the QR image, drawing secrets, the row
-- lock of `_lock_admins` (operations run one at a time here), the publishing of frames to Redis
-- and their following, the change between time zones (the days and minutes of `next_after` are
-- those of the schedule's zone, and its changes of the clock are not modelled), CurseForge's
-- branch of `resolve`, and the modules of the panel and of the node agent about servers, mods
-- and packs, which are mostly input and output. Of files, the walk by file descriptors and the
-- reading and writing; a folder is what it lists, with what reading each file gives, and
-- nothing changes in it while it is walked. Of backups, the zip stream, the size of the store,
-- and files that cannot be removed or written; an object is its hash, its bytes and whether it
-- is packed, in place of a file `ab/abcd` or `ab/abcd.z`, and zlib is a function of the whole
-- content.
pub mod Base
pub mod Policy
pub mod Auth
pub mod Access
pub mod Guard
pub mod Jobs
pub mod Schedules
pub mod Files
pub mod Snapshots
pub mod Racks
pub mod Deps
pub mod Properties
pub mod Examples
