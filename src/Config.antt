-- ===== src/Config.antt =====
-- ddg/config.h and ddg/config.cc.
pub mod Vars
pub mod Listeners
pub mod Registry
pub mod Listing
pub mod Loading
pub mod Variables
