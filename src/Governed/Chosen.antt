-- ===== src/Governed/Chosen.antt =====
-- What holds of the role that a selection by candidates names.
use mathlib.Core.Path.{sym, ◌∙◌, subst}
use mathlib.Core.Option.{some-injective, none-ne-some}
use sprint_runtime.Prelude.{
  String, Bool, ◌≡◌, refl, true, false, Option, none, some, List, [], ◌∷◌, arith, Bool-cases, inl,
  inr, ◌==◌, eq_refl, ◌||◌,
}
use sprint_runtime.Prelude.Text.{is_empty}
use sprint_runtime.Prelude.Lists.{is_nil, member}
use sprint_runtime.Prelude.Sorting.{Each, Each-map, Each-sort_by, sort_by-Tops}
use sprint_runtime.Governed.{AgentCapability, get_agent_capability, and_then}
use sprint_runtime.Governed.Terms.{should_not_handle_matches}
use sprint_runtime.Governed.Candidates.{
  Candidate, Pool, Query, candidates, outranks, ranked, add_candidate,
}
use sprint_runtime.Governed.Ranking.{outranks-IsStrict}
use sprint_runtime.Governed.Select.{
  build_governed_routing_selection, query_of, select, Call, Selection, candidate_roles, choose,
  dropped, select_candidate,
}

pub and_then-some {ℓ κ} :
    {A : Type ℓ} {B : Type κ} (o : Option A) (go : A → Option B) {b : B}
    → and_then o go ≡ some b
    → (a : A) × (o ≡ some a) × (go a ≡ some b)
and_then-some none go h = absurd (none-ne-some _ h)
and_then-some (some a) go h = (a, refl, h)

-- A candidate is one of the roles, and no boundary of its capability is in the text.
abbrev pub Sound : Query → List String → Candidate → Type 0
Sound q roles candidate =
    (member candidate.role roles ≡ true)
    × (c : AgentCapability) × (get_agent_capability candidate.role q.policy ≡ some c)
    × (is_nil (should_not_handle_matches c q.text) ≡ true)

later-Sound :
    (q : Query) (role : String) (roles : List String) (candidate : Candidate)
    → Sound q roles candidate
    → Sound q (role ∷ roles) candidate
later-Sound q role roles candidate (m, c, found, clear) = (ground arith, c, found, clear)

add_candidate-Sound :
    (q : Query) (role : String) (roles : List String) (c : AgentCapability) (pool : Pool)
    → get_agent_capability role q.policy ≡ some c
    → Each (Sound q roles) pool.scored_candidates
    → Each (Sound q (role ∷ roles)) (add_candidate q role c pool).scored_candidates
unfolding add_candidate
add_candidate-Sound q role roles c pool found before =
    let later = Each-map _ _ pool.scored_candidates (later-Sound q role roles) before in
    elim (Bool-cases (is_nil (should_not_handle_matches c q.text))) [
      | inl clear ↦ rw clear ((ground (arith, eq_refl role), c, found, clear), later)
      | inr not_clear ↦ rw not_clear later
    ]

candidates-Sound :
    (q : Query) (roles : List String) {pool : Pool}
    → candidates q roles ≡ some pool
    → Each (Sound q roles) pool.scored_candidates
unfolding candidates
candidates-Sound q [] e =
    subst (λ pool. Each (Sound q []) pool.scored_candidates) (some-injective _ _ e) tt
candidates-Sound q (role ∷ roles) e =
    let (c, found, e') = and_then-some (get_agent_capability role q.policy) _ e in
    let (pool, before, made) = and_then-some (candidates q roles) _ e' in
    subst (λ pool'. Each (Sound q (role ∷ roles)) pool'.scored_candidates) (some-injective _ _ made)
      (add_candidate-Sound q role roles c pool found (candidates-Sound q roles before))

choose-inv :
    (call : Call) (q : Query) (pool : Pool) (order : List Candidate)
    → is_empty (choose call q pool order).selected_role ≡ false
    → (best : Candidate) × (others : List Candidate) × (order ≡ best ∷ others)
      × (dropped call q best ≡ false)
      × ((choose call q pool order).selected_role ≡ best.role)
unfolding choose
choose-inv call q pool [] h = absurd (ground (arith, h))
choose-inv call q pool (best ∷ others) h = elim (Bool-cases (dropped call q best)) [
  | inl e ↦ absurd (ground (arith, rw e at h))
  | inr e ↦ (best, others, refl, e, rw e refl)
]

-- What a selection of the best candidate rests on.
pub record Chosen (call : Call) (q : Query) (role : String) : Type 0 where
  pub roles : List String
  pub pool : Pool
  pub best : Candidate
  pub considered : candidate_roles call q ≡ some roles
  pub pooled : candidates q roles ≡ some pool
  pub named : role ≡ best.role
  pub sound : Sound q roles best
  pub top : Each (λ c. outranks c best ≡ false) pool.scored_candidates
  pub not_dropped : dropped call q best ≡ false

select_candidate-Chosen :
    (call : Call) (q : Query) {sel : Selection}
    → select_candidate call q ≡ some sel
    → is_empty sel.selected_role ≡ false
    → Chosen call q sel.selected_role
unfolding select_candidate
select_candidate-Chosen call q {sel} e named =
    let (roles, considered, e') = and_then-some (candidate_roles call q) _ e in
    let (pool, pooled, made) = and_then-some (candidates q roles) _ e' in
    let same : choose call q pool (ranked pool) ≡ sel = some-injective _ _ made in
    let (best, others, order, on, role) =
      choose-inv call q pool (ranked pool)
        (subst (λ x. is_empty x.selected_role ≡ false) (sym same) named) in
    record {
      roles = roles;
      pool = pool;
      best = best;
      considered = considered;
      pooled = pooled;
      named = subst (λ x. x.selected_role ≡ best.role) same role;
      sound =
          (rw order at (
            Each-sort_by outranks (Sound q roles) pool.scored_candidates
              (candidates-Sound q roles pooled))).0;
      top = rw order at (sort_by-Tops outranks outranks-IsStrict pool.scored_candidates);
      not_dropped = on;
    }

-- The sources for which the policy names the role by itself.
abbrev pub by_policy_source : String → Bool
by_policy_source source =
    source == "user_intake"
    || source == "blocked_backlog_review"
    || source == "planning_resume"
    || source == "sprint_initial"

select-by_candidates :
    (call : Call) (q : Query)
    → by_policy_source call.selection_source ≡ false
    → select call q ≡ select_candidate call q
unfolding select
select-by_candidates call q h = ground arith

-- For a source for which the policy names no role by itself, a role that the selection names is a
-- considered role that has a capability and no boundary in the text of the request, which no scored
-- candidate outranks, and which no guard drops.
pub selection-Chosen :
    (call : Call) {sel : Selection}
    → build_governed_routing_selection call ≡ some sel
    → by_policy_source call.selection_source ≡ false
    → is_empty sel.selected_role ≡ false
    → (q : Query) × (query_of call ≡ some q) × Chosen call q sel.selected_role
unfolding build_governed_routing_selection
selection-Chosen call {sel} e by_score named =
    let (q, asked, e') = and_then-some (query_of call) _ e in
    (
      q,
      asked,
      select_candidate-Chosen call q (sym (select-by_candidates call q by_score) ∙ e') named,
    )
