-- ===== src/Azureblob.antt =====
-- azureblob: the provider of Azure Blob Storage.
pub mod Keys
pub mod Options
pub mod Body
pub mod Errors
pub mod Api
pub mod Objects
pub mod New
