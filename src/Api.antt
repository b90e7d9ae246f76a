-- ===== src/Api.antt =====
-- The HTTP API (src/api/v1, src/api/deps.py): a request is the user of its credentials, the check
-- of the role that its route asks for, and a call of a service, all in one transaction; an
-- exception becomes an answer with a status code (src/middleware/error_handler.py).
pub mod Body
pub mod Route
pub mod Submissions
pub mod Evaluations
pub mod Datasets
pub mod Metrics
pub mod Results
pub mod Accounts
pub mod Router
