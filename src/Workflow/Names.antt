-- ===== src/Workflow/Names.antt =====
-- The texts by which phases, steps, roles, statuses, categories and outcomes are written, and the
-- membership tests of the source's sets as partial inverses.
use sprint_runtime.Prelude.{String, ◌==◌, ◌≡◌, refl, Option, none, some, if◌then◌else◌}
use sprint_runtime.Workflow.{
  Phase, planning, implementation, validation, closeout_phase, Step, research_initial,
  planner_draft, planner_advisory, designer_advisory, architect_advisory, planner_finalize,
  architect_guidance, developer_build, architect_review, developer_revision, qa_validation,
  closeout, PhaseStatus, active, finalizing, blocked, completed, Role, orchestrator, research,
  planner, designer, architect, developer, qa, version_controller, Category, unset, scope, ux,
  architecture, implementation_category, verification, Outcome, no_outcome, continue, advance,
  reopen, block, complete,
}

abbrev pub phase_text : Phase → String
phase_text planning = "planning"
phase_text implementation = "implementation"
phase_text validation = "validation"
phase_text closeout_phase = "closeout"

unfoldable pub to_phase : String → Option Phase
to_phase s =
    if s == "planning"
    then some planning
    else if s == "implementation"
    then some implementation
    else if s == "validation"
    then some validation
    else if s == "closeout"
    then some closeout_phase
    else none

abbrev pub step_text : Step → String
step_text research_initial = "research_initial"
step_text planner_draft = "planner_draft"
step_text planner_advisory = "planner_advisory"
step_text designer_advisory = "designer_advisory"
step_text architect_advisory = "architect_advisory"
step_text planner_finalize = "planner_finalize"
step_text architect_guidance = "architect_guidance"
step_text developer_build = "developer_build"
step_text architect_review = "architect_review"
step_text developer_revision = "developer_revision"
step_text qa_validation = "qa_validation"
step_text closeout = "closeout"

unfoldable pub to_step : String → Option Step
to_step s =
    if s == "research_initial"
    then some research_initial
    else if s == "planner_draft"
    then some planner_draft
    else if s == "planner_advisory"
    then some planner_advisory
    else if s == "designer_advisory"
    then some designer_advisory
    else if s == "architect_advisory"
    then some architect_advisory
    else if s == "planner_finalize"
    then some planner_finalize
    else if s == "architect_guidance"
    then some architect_guidance
    else if s == "developer_build"
    then some developer_build
    else if s == "architect_review"
    then some architect_review
    else if s == "developer_revision"
    then some developer_revision
    else if s == "qa_validation"
    then some qa_validation
    else if s == "closeout"
    then some closeout
    else none

abbrev pub status_text : PhaseStatus → String
status_text active = "active"
status_text finalizing = "finalizing"
status_text blocked = "blocked"
status_text completed = "completed"

unfoldable pub to_status : String → Option PhaseStatus
to_status s =
    if s == "active"
    then some active
    else if s == "finalizing"
    then some finalizing
    else if s == "blocked"
    then some blocked
    else if s == "completed"
    then some completed
    else none

abbrev pub role_text : Role → String
role_text orchestrator = "orchestrator"
role_text research = "research"
role_text planner = "planner"
role_text designer = "designer"
role_text architect = "architect"
role_text developer = "developer"
role_text qa = "qa"
role_text version_controller = "version_controller"

-- Membership in TEAM_ROLES.
unfoldable pub to_team_role : String → Option Role
to_team_role s =
    if s == "orchestrator"
    then some orchestrator
    else if s == "research"
    then some research
    else if s == "planner"
    then some planner
    else if s == "designer"
    then some designer
    else if s == "architect"
    then some architect
    else if s == "developer"
    then some developer
    else if s == "qa"
    then some qa
    else none

-- `role in TEAM_ROLES or role == "version_controller"`
unfoldable pub to_owner : String → Option Role
unfolding to_team_role
to_owner s = if s == "version_controller" then some version_controller else to_team_role s

abbrev pub category_text : Category → String
category_text unset = ""
category_text scope = "scope"
category_text ux = "ux"
category_text architecture = "architecture"
category_text implementation_category = "implementation"
category_text verification = "verification"

unfoldable pub to_category : String → Option Category
to_category s =
    if s == ""
    then some unset
    else if s == "scope"
    then some scope
    else if s == "ux"
    then some ux
    else if s == "architecture"
    then some architecture
    else if s == "implementation"
    then some implementation_category
    else if s == "verification"
    then some verification
    else none

abbrev pub outcome_text : Outcome → String
outcome_text no_outcome = ""
outcome_text continue = "continue"
outcome_text advance = "advance"
outcome_text reopen = "reopen"
outcome_text block = "block"
outcome_text complete = "complete"

unfoldable pub to_outcome : String → Outcome
to_outcome s =
    if s == "continue"
    then continue
    else if s == "advance"
    then advance
    else if s == "reopen"
    then reopen
    else if s == "block"
    then block
    else if s == "complete"
    then complete
    else no_outcome

pub to_phase-phase_text : (p : Phase) → to_phase (phase_text p) ≡ some p
unfolding to_phase
to_phase-phase_text planning = refl
to_phase-phase_text _ = refl

pub to_step-step_text : (s : Step) → to_step (step_text s) ≡ some s
unfolding to_step
to_step-step_text research_initial = refl
to_step-step_text _ = refl

pub to_status-status_text : (s : PhaseStatus) → to_status (status_text s) ≡ some s
unfolding to_status
to_status-status_text active = refl
to_status-status_text _ = refl

pub to_owner-role_text : (r : Role) → to_owner (role_text r) ≡ some r
unfolding to_owner
to_owner-role_text orchestrator = refl
to_owner-role_text _ = refl

pub to_category-category_text : (c : Category) → to_category (category_text c) ≡ some c
unfolding to_category
to_category-category_text unset = refl
to_category-category_text _ = refl
