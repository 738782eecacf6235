-- ===== src/Agent.antt =====
-- The Agent: its users, tokens and requests.
pub mod Hasher
pub mod Tokens
pub mod Users
pub mod Auth
pub mod Tasks
pub mod Middleware
pub mod App
pub mod Json
pub mod Docs
pub mod Api
