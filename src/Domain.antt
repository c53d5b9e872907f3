-- ===== src/Domain.antt =====
-- Classes/Domain/Model
pub mod Settings
pub mod Pagination
pub mod Filter
pub mod Operation
pub mod Resource
