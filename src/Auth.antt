-- ===== src/Auth.antt =====
-- Who may act: permissions, and the security of logins.
pub mod PermissionCodes
pub mod Permissions
pub mod Redis
pub mod LoginSecurity
pub mod Login
pub mod Mfa
pub mod Sessions
pub mod Refresh
