-- ===== src/AuthRouter.antt =====
-- quansec/protocols/auth_router.py: the endpoints of /api/auth, each with all that it changes.
pub mod Session
pub mod Login
pub mod Refresh
pub mod Users
pub mod Samples
mod Tests
