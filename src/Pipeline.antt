-- ===== src/Pipeline.antt =====
-- The evaluation pipeline (src/workers/tasks): the base class of its tasks, the orchestrator that
-- starts a run, and the steps that score and finish it.
pub mod BaseTask
pub mod Orchestrator
pub mod CrossCheck
pub mod Finalize
pub mod Fabrication
pub mod LlmJudge
pub mod Chain
pub mod WebVerification
pub mod PitchDeck
pub mod VideoAnalysis
pub mod GithubAnalysis
