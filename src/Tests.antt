-- ===== src/Tests.antt =====
-- Concrete runs at which the theorems apply, and the data they use.
pub mod Samples
pub mod Handlers
pub mod Dispatching
pub mod Queries
pub mod Pages
pub mod Headers
pub mod Writes
pub mod Views
pub mod Uploads
pub mod Metadata
pub mod Joins
pub mod Documentation
pub mod Requests
pub mod Addresses
pub mod Related
pub mod Components
