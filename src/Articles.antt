-- ===== src/Articles.antt =====
-- The articles (articles/).
pub mod Slug
pub mod Tags
pub mod Read
pub mod Create
pub mod Update
pub mod Delete
pub mod Favorite
pub mod List
pub mod Hydrator
pub mod Feed
pub mod Requests
pub mod Controller
