-- ===== src/Args.antt =====
-- shared/companion/args.mjs: the command line of the companions, from an argument vector or from
-- one raw string.
pub mod Tokens
pub mod Config
pub mod Parse
pub mod Raw
pub mod Request
pub mod Agreement
pub mod Tiling
pub mod Spans
pub mod Declared
pub mod RoundTrip
mod Tests
