-- ===== src/S3.antt =====
-- s3: the provider of Amazon S3.
pub mod Keys
pub mod Errors
pub mod Options
pub mod Body
pub mod Api
pub mod Put
pub mod Resume
pub mod Objects
pub mod New
