-- ===== src/Analysis.antt =====
-- services/llm_service/app: from the market's figures and a language model's answer to a signal.
pub mod Wire
pub mod Context
pub mod Strategy
pub mod Score
pub mod Semantic
pub mod Client
pub mod Response
pub mod Pipeline
