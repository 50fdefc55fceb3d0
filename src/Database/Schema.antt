-- ===== src/Database/Schema.antt =====
-- The tables of the migrations (database/migrations) as the entity classes declare them. A table is
-- the list of its rows in an order that the program cannot choose. Times are milliseconds.
use nest_js_tutorial.Base.{ℕ, Text, Option, List}

-- users/user.entity.ts
pub record User : Type 0 where
  pub id : Text
  pub username : Text
  pub email : Text
  pub password_hash : Text
  pub bio : Option Text
  pub image : Option Text
  pub created_at : ℕ
  pub updated_at : ℕ

-- articles/article.entity.ts
pub record Article : Type 0 where
  pub id : Text
  pub slug : Text
  pub title : Text
  pub description : Text
  pub body : Text
  pub author_id : Text
  pub created_at : ℕ
  pub updated_at : ℕ

-- tags/tag.entity.ts
pub record Tag : Type 0 where
  pub id : Text
  pub name : Text

-- articles/article-tag.entity.ts
pub record ArticleTag : Type 0 where
  pub article_id : Text
  pub tag_id : Text
  pub position : ℕ

-- articles/article-favorite.entity.ts
pub record ArticleFavorite : Type 0 where
  pub article_id : Text
  pub user_id : Text

-- comments/comment.entity.ts
pub record Comment : Type 0 where
  pub id : ℕ
  pub article_id : Text
  pub author_id : Text
  pub body : Text
  pub created_at : ℕ
  pub updated_at : ℕ

-- profiles/user-follow.entity.ts
pub record UserFollow : Type 0 where
  pub follower_id : Text
  pub following_id : Text

-- attachments/attachment.entity.ts
pub record Attachment : Type 0 where
  pub id : Text
  pub owner_id : Text
  pub storage_key : Text
  pub media_type : Text
  pub byte_size : ℕ
  pub created_at : ℕ

-- jobs/welcome-mail-outbox.entity.ts
pub data OutboxStatus : Type 0 where
  pending dispatching dispatched : OutboxStatus

pub record WelcomeMailOutbox : Type 0 where
  pub id : Text
  pub user_id : Text
  pub email : Text
  pub username : Text
  pub status : OutboxStatus
  pub attempt_count : ℕ
  pub available_at : ℕ
  pub lease_owner : Option Text
  pub lease_expires_at : Option ℕ
  pub dispatched_at : Option ℕ
  pub created_at : ℕ

pub record Db : Type 0 where
  pub users : List User
  pub articles : List Article
  pub tags : List Tag
  pub article_tags : List ArticleTag
  pub article_favorites : List ArticleFavorite
  pub comments : List Comment
  pub user_follows : List UserFollow
  pub attachments : List Attachment
  pub outbox : List WelcomeMailOutbox
