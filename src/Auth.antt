-- ===== src/Auth.antt =====
-- The accounts of the business server, src/oj_server/include/control/control_auth.hpp. Codes: the
-- verification codes that go out by mail.
pub mod Codes
pub mod Passwords
pub mod Login
pub mod Requests
