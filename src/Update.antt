-- ===== src/Update.antt =====
-- internal/core/update: the checks for a new version and the replacement of the program by it.
pub mod Texts
pub mod Http
pub mod Checker
pub mod Downloads
pub mod Checksums
pub mod Archives
pub mod Replacing
pub mod Updater
pub mod Versions
pub mod Installs
pub mod Listings
pub mod Placed
pub mod Verified
pub mod Checklists
pub mod Compared
mod Examples
