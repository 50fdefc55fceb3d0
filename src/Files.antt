-- ===== src/Files.antt =====
-- Attachments and their files (attachments/, files/, and the avatar of auth/).
pub mod Storage
pub mod MediaTypes
pub mod Avatar
pub mod Upload
pub mod Read
