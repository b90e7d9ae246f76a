-- ===== src/Findings.antt =====
-- What the analyses of a run found, as the repositories read and write it
-- (src/repositories/score_repository.py, contradiction_repository.py, worker_result_repository.py).
pub mod Scores
pub mod Contradictions
pub mod Workers
