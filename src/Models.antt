-- ===== src/Models.antt =====
-- The rows of the database (src/models). A UUID is a number, which the code only compares; a
-- timestamp is a number of seconds; a JSON object is a list of keys and texts. Columns that no
-- modelled code reads or writes are left out.
pub mod Run
pub mod Submission
pub mod Account
pub mod Findings
pub mod Dataset
pub mod Metric
