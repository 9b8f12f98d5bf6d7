-- ===== src/Evaluator/Negation.antt =====
-- `eval_unary` on integers.
