-- ===== src/Contract.antt =====
-- workflows/orchestration/engine.py: the contract that a role's report has to meet before the
-- workflow moves. A report is the payload that `normalize_role_payload` has brought into shape: its
-- texts are texts, its lists are lists of texts and its proposals are a dictionary.
pub mod Artifacts
pub mod Documents
pub mod Quality
pub mod Enforce
pub mod Routing
pub mod Verdicts
pub mod Sanitize
pub mod Required
use sprint_runtime.Prelude.{String, List, map, not}
use sprint_runtime.Prelude.Text.{is_empty, strip}
use sprint_runtime.Prelude.Lists.{keep}
use sprint_runtime.Python.{Fields}

pub record RoleResult : Type 0 where
  pub status : String
  pub summary : String
  pub error : String
  pub insights : List String
  pub artifacts : List String
  pub proposals : Fields
  pub contract_status : String

-- `[str(item).strip() for item in items if str(item).strip()]`
abbrev pub stripped : List String → List String
stripped items = keep (λ s. not (is_empty s)) (map strip items)
