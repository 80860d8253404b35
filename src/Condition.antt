-- ===== src/Condition.antt =====
-- The evaluator of row conditions (backend/app/services/condition_evaluator.py): tokens, the
-- recursive-descent parser that evaluates as it reads, and `ConditionEvaluator.evaluate`.
pub mod Token
pub mod Tokenizer
pub mod Parser
pub mod Fuel
pub mod Evaluator
pub mod Grammar
pub mod Reading
pub mod Reads
pub mod Meaning
mod Agrees
pub mod Exact
pub mod Dangling
mod Tests
