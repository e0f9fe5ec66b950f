-- ===== src/Mcp.antt =====
-- The package mcp: challenges, the assembly of evaluation requests, and the middleware. A string is
-- the list of its runes here; one that is not valid UTF-8 is not modelled.
pub mod Runes
pub mod Quote
pub mod Params
pub mod Challenge
pub mod DenyContext
pub mod Token
pub mod Profile
pub mod Middleware
pub mod Tests
