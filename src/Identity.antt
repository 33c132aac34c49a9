-- ===== src/Identity.antt =====
-- apps/identity: the sessions of the users who log in.
pub mod Cookies
pub mod KeyCipher
pub mod Login
pub mod RefreshTokens
pub mod SigningKeys
