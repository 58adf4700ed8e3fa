-- ===== src/Backlog/Order.antt =====
-- The two orders of backlog items: that of workflows/orchestration/scheduler.py, by which a sprint
-- selects its items, and that of shared/formatting.py, by which items are listed.
use sprint_runtime.Prelude.{
  ℕ, zero, suc, String, Bool, ◌==◌, ltb, List, [], ◌∷◌, map, if◌then◌else◌,
}
use sprint_runtime.Prelude.Lists.{keep}
use sprint_runtime.Prelude.Order.{
  lex, text_ltb, IsStrict, lex-IsStrict, ascending-IsStrict, ltb-IsStrict, text_ltb-IsStrict,
}
use sprint_runtime.Prelude.Sorting.{sort_by}
use sprint_runtime.Python.{ℤ, pos, negsuc, Value, Fields, get}
use sprint_runtime.Python.Integers.{ltb_ℤ, ltb_ℤ-IsStrict}
use sprint_runtime.Python.Convert.{Result, ok, ◌>>=◌, text, tag, int_or}
use sprint_runtime.Python.Sequences.{or_value}

-- The tuple of `priority`.
pub record Priority : Type 0 where
  pub group : ℕ
  pub first : ℤ
  pub second : ℕ
  pub created : String

-- Tuples are compared from the left.
abbrev pub precedes : Priority → Priority → Bool
precedes =
    lex (λ a b. ltb a.group b.group)
      (lex (λ a b. ltb_ℤ a.first b.first)
        (lex (λ a b. ltb a.second b.second) (λ a b. text_ltb a.created b.created)))

abbrev pub kind_rank : String → ℕ
kind_rank kind =
    if kind == "bug"
    then 0
    else if kind == "feature"
    then 1
    else if kind == "enhancement"
    then 2
    else if kind == "chore"
    then 3
    else 4

-- `priority`, for the rank as a number
abbrev pub ranked_priority : Fields → ℤ → Priority
ranked_priority item (pos (suc n)) = record {
  group = 0;
  first = negsuc n;
  second = 0;
  created = text (get item "created_at");
}
ranked_priority item _ = record {
  group = 1;
  first = if text (get item "source") == "user" then pos 0 else pos 1;
  second = kind_rank (tag (get item "kind"));
  created = text (get item "created_at");
}

unfoldable pub priority : Fields → Result Priority
unfolding text tag get int_or
priority item = int_or (get item "priority_rank") (pos 0) >>= λ rank. ok (ranked_priority item rank)

-- `is_actionable_backlog_status(str(item.get("status") or ""))`
unfoldable pub is_actionable : Fields → Bool
unfolding tag get
is_actionable item = tag (get item "status") == "pending"

-- Each item with its key.
unfoldable pub with_priorities : List Fields → Result (List (Priority × Fields))
unfolding priority
with_priorities [] = ok []
with_priorities (item ∷ items) =
    priority item >>= λ p. with_priorities items >>= λ rest. ok ((p, item) ∷ rest)

abbrev pub first_of : Priority × Fields → Priority × Fields → Bool
first_of a b = precedes a.0 b.0

-- `select_backlog_items_for_sprint`, for the items that the store holds once it is repaired.
unfoldable pub select_backlog_items_for_sprint : List Fields → Result (List Fields)
unfolding is_actionable with_priorities sort_by
select_backlog_items_for_sprint items = with_priorities (keep is_actionable items) >>= λ keyed.
    ok (map (λ e. e.1) (sort_by first_of keyed))

abbrev pub rank_of : Result ℤ → ℕ
rank_of (ok (pos n)) = n
rank_of _ = 0

-- `normalize_priority_rank`, which catches the exceptions of `int`.
unfoldable pub normalize_priority_rank : Value → ℕ
unfolding int_or
normalize_priority_rank value = rank_of (int_or value (pos 0))

-- PRIORITY_RANK_UNSET_SORT_VALUE
abbrev pub unset_rank : ℕ
unset_rank = 1000000000

abbrev pub rank_or_unset : ℕ → ℕ
rank_or_unset zero = unset_rank
rank_or_unset (suc n) = suc n

unfoldable pub priority_rank_sort_value : Value → ℕ
unfolding normalize_priority_rank
priority_rank_sort_value value = rank_or_unset (normalize_priority_rank value)

pub record SortKey : Type 0 where
  pub rank : ℕ
  pub time : String
  pub identifier : String

unfoldable pub priority_rank_sort_key : Fields → SortKey
unfolding priority_rank_sort_value text get
priority_rank_sort_key item = record {
  rank = priority_rank_sort_value (get item "priority_rank");
  time =
      text (
        or_value (get item "created_at")
          (or_value (get item "started_at") (get item "updated_at")));
  identifier = text (or_value (get item "backlog_id") (get item "todo_id"));
}

abbrev pub key_precedes : SortKey → SortKey → Bool
key_precedes =
    lex (λ a b. ltb a.rank b.rank)
      (lex (λ a b. text_ltb a.time b.time) (λ a b. text_ltb a.identifier b.identifier))

precedes-IsStrict : IsStrict precedes
precedes-IsStrict = lex-IsStrict _ _ (ascending-IsStrict ltb (λ p. p.group) ltb-IsStrict) (
    lex-IsStrict _ _ (ascending-IsStrict ltb_ℤ (λ p. p.first) ltb_ℤ-IsStrict) (
      lex-IsStrict _ _ (ascending-IsStrict ltb (λ p. p.second) ltb-IsStrict)
        (ascending-IsStrict text_ltb (λ p. p.created) text_ltb-IsStrict)))

pub first_of-IsStrict : IsStrict first_of
first_of-IsStrict = ascending-IsStrict precedes (λ e. e.0) precedes-IsStrict
