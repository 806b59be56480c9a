-- ===== src/Log.antt =====
-- ddg/log.h and ddg/log.cc.
pub mod Levels
pub mod Pattern
pub mod Lexing
pub mod Pieces
pub mod Parsing
pub mod Formatter
pub mod Printing
pub mod Logger
pub mod Files
pub mod Routing
pub mod Readiness
pub mod Manager
pub mod Names
pub mod Naming
pub mod Defines
pub mod Casts
pub mod Configuring
pub mod Dump
pub mod Dumping
pub mod Rereading
pub mod Reloading
