-- ===== src/Contract/Artifacts.antt =====
-- Which paths of a report name planning documents.
use Prim.Native.Char.{code}
use Prim.Native.String.{char_at}
use sprint_runtime.Prelude.{
  String, ◌<>◌, ◌==◌, Bool, false, not, ◌&&◌, ◌||◌, List, [], ◌∷◌, eqb, if◌then◌else◌,
}
use sprint_runtime.Prelude.Text.{is_empty, strip, lower, starts_with, ends_with, has, replace}
use sprint_runtime.Prelude.Lists.{keep, member}

-- `while normalized.startswith("./"): normalized = normalized[2:]`
drop_dots : String → String
drop_dots String.[] = ""
drop_dots (String.◌∷◌ c String.[]) = String.◌∷◌ c ""
drop_dots (String.◌∷◌ c (String.◌∷◌ d s)) =
    let rest = drop_dots s in
    if eqb (code c) 46 && eqb (code d) 47 then rest else String.◌∷◌ c (String.◌∷◌ d s)

unfoldable pub normalize_artifact_hint : String → String
unfolding drop_dots replace
normalize_artifact_hint value = drop_dots (replace (char_at "\\" 0) (char_at "/" 0) (strip value))

-- The parts of a path, from the part that is being read.
parts_from : String → String → List String
parts_from part String.[] = part ∷ []
parts_from part (String.◌∷◌ c s) =
    let ended = part ∷ parts_from "" s in
    let longer = parts_from (part <> String.◌∷◌ c "") s in if eqb (code c) 47 then ended else longer

abbrev last_or : String → List String → String
last_or s [] = s
last_or s (t ∷ rest) = last_or t rest

-- `PurePosixPath(path).name`: the last part; empty parts and single dots do not count.
unfoldable pub path_name : String → String
unfolding parts_from
path_name path = last_or "" (keep (λ s. not (is_empty s || s == ".")) (parts_from "" path))

abbrev planning_surface_sprint_doc_names : List String
planning_surface_sprint_doc_names =
    "kickoff.md" ∷ "milestone.md" ∷ "plan.md" ∷ "spec.md" ∷ "todo_backlog.md" ∷ "iteration_log.md"
    ∷ []

abbrev planner_owned_sprint_doc_names : List String
planner_owned_sprint_doc_names =
    "kickoff.md" ∷ "milestone.md" ∷ "plan.md" ∷ "spec.md" ∷ "todo_backlog.md" ∷ "iteration_log.md"
    ∷ []

abbrev planning_surface_root_doc_names : List String
planning_surface_root_doc_names = "backlog.md" ∷ "completed_backlog.md" ∷ "current_sprint.md" ∷ []

-- The tests of `is_planning_surface_artifact_hint` on the normalized path.
is_surface_path : String → Bool
is_surface_path path =
    let name = path_name path in
    if is_empty path
    then false
    else starts_with path ".teams_runtime/requests/" && ends_with name ".json"
      || starts_with path ".teams_runtime/backlog/" && ends_with name ".json"
      || starts_with path "shared_workspace/sprint_history/" && ends_with name ".md"
      || starts_with path "shared_workspace/"
        && (member name planning_surface_root_doc_names
            || has "/sprints/" path && member name planning_surface_sprint_doc_names)

unfoldable pub is_planning_surface_artifact_hint : String → Bool
unfolding is_surface_path normalize_artifact_hint path_name lower starts_with ends_with has
is_planning_surface_artifact_hint hint = is_surface_path (lower (normalize_artifact_hint hint))

unfoldable pub is_owned_path : String → Bool
unfolding path_name starts_with has
is_owned_path path =
    let name = path_name path in
    not (is_empty path)
    && starts_with path "shared_workspace/"
    && (member name planning_surface_root_doc_names
        || has "/sprints/" path && member name planner_owned_sprint_doc_names)

unfoldable pub is_planner_owned_surface_artifact_hint : String → Bool
is_planner_owned_surface_artifact_hint hint = is_owned_path (lower (normalize_artifact_hint hint))
