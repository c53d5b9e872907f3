-- ===== src/Upload.antt =====
-- Classes/Service/FileUploadService.php.
pub mod Mask
pub mod Filename
pub mod Storage
pub mod Service
