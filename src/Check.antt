-- ===== src/Check.antt =====
-- internal/check: the catalog of checks, the binding of their parameters, and the parsers of their output.
pub mod Record
pub mod Shells
pub mod Catalog
pub mod Bind
pub mod Typed
pub mod Parse
pub mod Rows
