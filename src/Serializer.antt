-- ===== src/Serializer.antt =====
-- Classes/Service/SerializerMetadataService.php.
pub mod Params
pub mod Types
pub mod Properties
pub mod Generation
