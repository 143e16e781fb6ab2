-- ===== src/Deps/Model.antt =====
-- app/deps.py: the catalogue's answers, the installed index and the plan of `resolve`. A text that is
-- missing is empty, which the code's tests do not tell apart.
use bless_forge.Base.{ℕ, Bool, Option, List, nat_eq, string_eq, Text, text_eq, Refusal, Result}

-- An entry of `version["dependencies"]`
pub record Dependency : Type 0 where
  pub kind : Text
  pub project_id : Text
  pub version_id : Text

-- The numbers of CurseForge's files, the texts of Modrinth's versions
pub data FileId : Type 0 where
  number : ℕ → FileId
  named : Text → FileId

pub record Version : Type 0 where
  pub file_id : FileId
  pub mod_id : Text
  pub file_name : Text
  pub version_number : Text
  pub size : ℕ
  pub release_type : Text
  pub date : Text
  pub game_versions : List Text
  pub loaders : List Text
  pub dependencies : List Dependency

pub record Project : Type 0 where
  pub slug : Text
  pub name : Text
  pub logo : Text
  pub server_side : Text

-- What the code asks of Modrinth: a call may fail, and may find nothing.
pub record Catalog : Type 0 where
  pub get_version : Text → Result (Option Version)
  pub list_versions : Text → Text → Text → Result (List Version)
  pub get_project : Text → Result (Option Project)

-- `installed_index`: the keys of `by_project`, the file names, and the names by their stems
pub record Installed : Type 0 where
  pub by_project : List Text
  pub files : List Text
  pub stems : List (Text × Text)

pub data Match : Type 0 where
  unmatched : Match
  exact_filename : Match
  looks_like : Text → Match

-- An entry of the plan. `version` is what the entry takes its file id, file name, number and size from.
pub record PlanEntry : Type 0 where
  pub project_id : Text
  pub version : Version
  pub name : Text
  pub logo : Text
  pub required_by : Text
  pub depth : ℕ
  pub already_installed : Bool
  pub server_side : Text
  pub present_as : Match

-- The warnings, with what they name
pub data Warning : Type 0 where
  no_version : Text → Text → Warning
  unresolved : Text → Refusal → Warning
  needs_renderer : Text → Text → Warning
  renderer : Text → Warning
  client_only : Text → Warning

-- The lists that `visit` fills
pub record Walk : Type 0 where
  pub plan : List PlanEntry
  pub warnings : List Warning
  pub seen : List Text

-- The arguments of `visit`
pub record Item : Type 0 where
  pub project : Text
  pub file : Text
  pub depth : ℕ
  pub required_by : Text

pub record InstallPlan : Type 0 where
  pub root : Option PlanEntry
  pub dependencies : List PlanEntry
  pub already_satisfied : List PlanEntry
  pub warnings : List Warning
  pub total_downloads : ℕ
  pub total_bytes : ℕ
