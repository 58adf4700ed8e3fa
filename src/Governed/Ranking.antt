-- ===== src/Governed/Ranking.antt =====
-- The ranking of the candidates is a strict order.
use sprint_runtime.Prelude.{ltb}
use sprint_runtime.Prelude.Order.{
  IsStrict, lex-IsStrict, descending-IsStrict, ltb-IsStrict, text_ltb, text_ltb-IsStrict,
}
use sprint_runtime.Python.Integers.{ltb_ℤ, ltb_ℤ-IsStrict}
use sprint_runtime.Governed.Candidates.{outranks}

pub outranks-IsStrict : IsStrict outranks
outranks-IsStrict = lex-IsStrict _ _ (descending-IsStrict ltb_ℤ (λ c. c.score) ltb_ℤ-IsStrict) (
    lex-IsStrict _ _ (descending-IsStrict ltb_ℤ (λ c. c.priority) ltb_ℤ-IsStrict) (
      lex-IsStrict _ _ (descending-IsStrict ltb (λ c. c.bonus) ltb-IsStrict)
        (descending-IsStrict text_ltb (λ c. c.role) text_ltb-IsStrict)))
