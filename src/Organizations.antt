-- ===== src/Organizations.antt =====
-- Users, the organizations they belong to, and what an organization admin and a super admin can do.
pub mod Texts
pub mod Store
pub mod Server
pub mod Responses
pub mod Mine
pub mod Claims
pub mod Platform
pub mod Users
pub mod Login
pub mod Rows
pub mod Requests
mod Tests
