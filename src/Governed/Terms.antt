-- ===== src/Governed/Terms.antt =====
-- The terms of a capability that occur in the text of a request.
use Prim.Native.String.{char_at}
use sprint_runtime.Prelude.{
  ℕ, ◌-◌, String, ◌<>◌, Bool, not, ◌&&◌, List, [], ◌∷◌, ◌++◌, ltb, leb, eqb, if◌then◌else◌,
}
use sprint_runtime.Prelude.Text.{is_empty, has, join, normalized, replace, split}
use sprint_runtime.Prelude.Lists.{length, member, take}
use sprint_runtime.Governed.{AgentCapability}

-- Every character of the first text becomes a space in the second.
unfoldable pub blank_each : String → String → String
unfolding replace
blank_each String.[] value = value
blank_each (String.◌∷◌ token tokens) value = blank_each tokens (replace token (char_at " " 0) value)

unfoldable pub normalize_routing_reference_text : String → String
unfolding normalized blank_each split join
normalize_routing_reference_text value =
    join " " (split (blank_each "_-/\\.()[]{}:," (normalized value)))

-- The term, in its normal form, is not empty and occurs in the text.
unfoldable pub occurs : String → String → Bool
unfolding normalize_routing_reference_text has
occurs text term =
    not (is_empty (normalize_routing_reference_text term))
    && has (normalize_routing_reference_text term) text

abbrev pub labeled : String → String → String
labeled prefix term = prefix <> ":" <> term

abbrev pub add_match : String → String → String → List String → List String
add_match text prefix term matches =
    if occurs text term && not (member (labeled prefix term) matches)
    then matches ++ labeled prefix term ∷ []
    else matches

-- The loop, with the matches so far.
unfoldable pub collect : String → String → ℕ → List String → List String → List String
unfolding occurs
collect text prefix limit [] matches = matches
collect text prefix limit (term ∷ terms) matches =
    let found = add_match text prefix term matches in
    let rest = collect text prefix limit terms found in
    if leb limit (length found) then found else rest

unfoldable pub match_reference_terms : List String → String → String → ℕ → List String
unfolding collect
match_reference_terms terms text prefix limit =
    if eqb limit 0 then [] else collect text prefix limit terms []

abbrev pub owns_intent : AgentCapability → String → Bool
owns_intent c intent = not (is_empty intent) && member intent c.owned_intents

unfoldable pub routing_signal_matches : AgentCapability → String → String → List String
unfolding match_reference_terms
routing_signal_matches c intent text =
    let matches = if owns_intent c intent then ("intent:" <> intent) ∷ [] else [] in
    take 4 (
      matches
      ++ match_reference_terms c.routing_signals text "routing"
          (if ltb (length matches) 4 then 4 - length matches else 0))

-- The matches of `terms`, filled up with those of `signals` below the limit.
abbrev filled : List String → String → List String → String → String → ℕ → List String
filled terms prefix signals signal_prefix text limit =
    let matches = match_reference_terms terms text prefix limit in
    take limit (
      if ltb (length matches) limit
      then matches ++ match_reference_terms signals text signal_prefix (limit - length matches)
      else matches)

unfoldable pub strongest_domain_matches : AgentCapability → String → List String
unfolding match_reference_terms
strongest_domain_matches c text =
    filled c.strongest_for "strength" c.strongest_domain_signals "strength_signal" text 3

unfoldable pub preferred_skill_matches : AgentCapability → String → List String
unfolding match_reference_terms
preferred_skill_matches c text =
    filled c.preferred_skills "preferred_skill" c.preferred_skill_signals "skill_signal" text 2

unfoldable pub behavior_trait_matches : AgentCapability → String → List String
unfolding match_reference_terms
behavior_trait_matches c text =
    filled c.behavior_traits "behavior_trait" c.behavior_signals "behavior_signal" text 2

unfoldable pub should_not_handle_matches : AgentCapability → String → List String
unfolding match_reference_terms
should_not_handle_matches c text = match_reference_terms c.should_not_handle text "forbidden" 2
