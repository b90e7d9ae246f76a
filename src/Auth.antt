-- ===== src/Auth.antt =====
-- Authentication and authorization: roles and tokens (src/security.py), the auth service
-- (src/services/auth_service.py) and the dependencies of the API (src/api/deps.py).
pub mod Roles
pub mod Token
pub mod Service
pub mod Registration
pub mod Deps
