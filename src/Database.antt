-- ===== src/Database.antt =====
-- The database session (src/database.py) and what a service call can change: the tables, and the
-- messages that it sends to Celery, which no rollback takes back.
pub mod Table
pub mod Session
pub mod Reading
pub mod Returning
pub mod Repository
pub mod Audit
