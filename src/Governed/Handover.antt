-- ===== src/Governed/Handover.antt =====
-- To whom an execution role can hand a request over.
use mathlib.Core.Option.{some-injective}
use sprint_runtime.Prelude.{
  Bool-cases, inl, inr, sym, ◌∙◌, ◌≡◌, arith, String, true, false, some, ap, refl, Bool, List, [],
  ◌∷◌, ◌==◌, eq_iff, not, ◌&&◌,
}
use sprint_runtime.Prelude.Text.{is_empty, strip}
use sprint_runtime.Prelude.Lists.{keep, member}
use sprint_runtime.Governed.{execution_agent_roles, and_then, AgentCapability, get_agent_capability}
use sprint_runtime.Governed.Candidates.{Query}
use sprint_runtime.Governed.Select.{
  class_of, routing_phase_of, query_with, next_roles, hands_over, Call, Selection, executing,
  is_public_role, candidate_roles, query_of, build_governed_routing_selection,
}
use sprint_runtime.Governed.Chosen.{and_then-some, Chosen, by_policy_source, selection-Chosen}

member-keep :
    (p : String → Bool) (a : String) (xs : List String)
    → member a (keep p xs) ≡ true
    → (p a ≡ true) × (member a xs ≡ true)
member-keep p a [] h = absurd (ground (arith, h))
member-keep p a (x ∷ xs) h = ground (arith, member-keep p a xs, eq_iff a x)

-- A role that is in a list is none that is not.
eq-member :
    (role other : String) (roles : List String)
    → member role roles ≡ true
    → member other roles ≡ false
    → (role == other) ≡ false
eq-member role other roles h n = elim (Bool-cases (role == other)) [
  | inl e ↦ absurd (ground (arith, rw ((eq_iff role other).0 e) at h))
  | inr e ↦ e
]

executing-roles :
    (call : Call) (q : Query)
    → executing call ≡ true
    → candidate_roles call q
      ≡ and_then (get_agent_capability call.current_role q.policy) (λ c. some (next_roles call q c))
unfolding candidate_roles
executing-roles call q ex = rw (
  eq-member call.current_role "research" execution_agent_roles ex refl,
  eq-member call.current_role "planner" execution_agent_roles ex refl,
  ex,
)

next_roles-member :
    (call : Call) (q : Query) (c : AgentCapability) (role : String)
    → member role (next_roles call q c) ≡ true
    → (is_public_role role ≡ true) × (member role c.allowed_next_roles ≡ true)
next_roles-member call q c role h =
    elim (Bool-cases
      (not call.is_internal_sprint_request && not (hands_over q.request_state_class))) [
        | inl shut ↦ absurd (ground (arith, rw shut at h))
        | inr passing ↦ member-keep is_public_role role c.allowed_next_roles (rw passing at h)
      ]

query-fields :
    (call : Call) {q : Query}
    → query_of call ≡ some q
    → (q.policy ≡ call.policy) × (q.preferred_role ≡ strip call.preferred_role)
unfolding query_of
query-fields call {q} e =
    let (state_class, _, e') = and_then-some (class_of call) _ e in
    let (phase, _, made) = and_then-some (routing_phase_of call state_class) _ e' in
    let same : query_with call state_class phase ≡ q = some-injective _ _ made in
    (ap (λ x. x.policy) (sym same), ap (λ x. x.preferred_role) (sym same))

-- For a source for which the policy names no role by itself, a request that an execution role
-- reports on is handed over, if at all, to a public role among the next roles that the reporting
-- role's own capability allows.
pub handed_over-allowed :
    (call : Call) {sel : Selection}
    → build_governed_routing_selection call ≡ some sel
    → by_policy_source call.selection_source ≡ false
    → is_empty sel.selected_role ≡ false
    → executing call ≡ true
    → (c : AgentCapability) × (get_agent_capability call.current_role call.policy ≡ some c)
      × (is_public_role sel.selected_role ≡ true)
      × (member sel.selected_role c.allowed_next_roles ≡ true)
handed_over-allowed call {sel} e by_score named ex =
    let (q, asked, chosen) = selection-Chosen call e by_score named in
    let (c, found, made) =
      and_then-some (get_agent_capability call.current_role q.policy) _
        (sym (executing-roles call q ex) ∙ chosen.considered) in
    let allowed =
      next_roles-member call q c sel.selected_role
        (rw (some-injective _ _ made, chosen.named) chosen.sound.0) in
    let same_policy = (query-fields call asked).0 in
    (c, rw⁻¹ same_policy found, allowed.0, allowed.1)

signalled :
    (call : Call) (q : Query) (role : String)
    → Chosen call q role
    → role ≡ "planner"
    → executing call ≡ true
    → q.policy.planner_reentry_requires_explicit_signal ≡ true
    → is_empty q.preferred_role ≡ true
    → call.planner_reentry_has_explicit_signal ≡ true
signalled call q role chosen back ex wanted free =
    ground (arith, chosen.not_dropped, chosen.named, eq_iff chosen.best.role "planner")

-- For a source for which the policy names no role by itself, and where the policy wants a signal
-- for it, an execution role's report without a preferred role goes back to the planner only with an
-- explicit signal.
pub planner_reentry-signalled :
    (call : Call) {sel : Selection}
    → build_governed_routing_selection call ≡ some sel
    → by_policy_source call.selection_source ≡ false
    → executing call ≡ true
    → call.policy.planner_reentry_requires_explicit_signal ≡ true
    → is_empty (strip call.preferred_role) ≡ true
    → sel.selected_role ≡ "planner"
    → call.planner_reentry_has_explicit_signal ≡ true
planner_reentry-signalled call {sel} e by_score ex wanted free back =
    let (q, asked, chosen) = selection-Chosen call e by_score (rw back refl) in
    let (same_policy, same_preferred) = query-fields call asked in
    signalled call q sel.selected_role chosen back ex (rw same_policy wanted)
      (rw same_preferred free)
