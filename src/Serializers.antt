-- ===== src/Serializers.antt =====
-- The response bodies (common/serializers/). A time stands for its ISO string.
use nest_js_tutorial.Base.{ℕ, Bool, Text, Option, List, map}
use nest_js_tutorial.Database.{User, Article, Comment}

pub record SerializedAuthor : Type 0 where
  pub username : Text
  pub bio : Option Text
  pub image : Option Text
  pub following : Bool

-- ArticleSerializationContext
pub record ArticleSerializationContext : Type 0 where
  pub tags : List Text
  pub favorited : Bool
  pub favorites_count : ℕ
  pub author_following : Bool

-- ArticleFields
pub record ArticleFields : Type 0 where
  pub slug : Text
  pub title : Text
  pub description : Text
  pub tag_list : List Text
  pub created_at : ℕ
  pub updated_at : ℕ
  pub favorited : Bool
  pub favorites_count : ℕ
  pub author : SerializedAuthor

pub record ArticleDetail : Type 0 where
  pub fields : ArticleFields
  pub body : Text

pub record ArticleList : Type 0 where
  pub articles : List ArticleFields
  pub articles_count : ℕ

-- toArticleFields; a count is a natural number, so `Math.max(0, count)` is the count.
unfoldable pub to_article_fields : Article → User → ArticleSerializationContext → ArticleFields
to_article_fields article author context = record {
  slug = article.slug;
  title = article.title;
  description = article.description;
  tag_list = context.tags;
  created_at = article.created_at;
  updated_at = article.updated_at;
  favorited = context.favorited;
  favorites_count = context.favorites_count;
  author = record {
    username = author.username;
    bio = author.bio;
    image = author.image;
    following = context.author_following;
  };
}

unfoldable pub serialize_article_detail :
    Article → User → ArticleSerializationContext → ArticleDetail
serialize_article_detail article author context = record {
  fields = to_article_fields article author context;
  body = article.body;
}

-- serializeArticleList, over the articles with their authors and contexts.
unfoldable pub serialize_article_list :
    List (Article × User × ArticleSerializationContext) → ℕ → ArticleList
serialize_article_list articles count = record {
  articles = map (λ (a, u, c). to_article_fields a u c) articles;
  articles_count = count;
}

pub record SerializedComment : Type 0 where
  pub id : ℕ
  pub created_at : ℕ
  pub updated_at : ℕ
  pub body : Text
  pub author : SerializedAuthor

unfoldable pub serialize_comment : Comment → User → Bool → SerializedComment
serialize_comment comment author following = record {
  id = comment.id;
  created_at = comment.created_at;
  updated_at = comment.updated_at;
  body = comment.body;
  author = record {
    username = author.username;
    bio = author.bio;
    image = author.image;
    following = following;
  };
}

-- SerializedProfile
unfoldable pub serialize_profile : User → Bool → SerializedAuthor
serialize_profile user following = record {
  username = user.username;
  bio = user.bio;
  image = user.image;
  following = following;
}

pub record SerializedUser : Type 0 where
  pub bio : Option Text
  pub email : Text
  pub image : Option Text
  pub token : Text
  pub username : Text

unfoldable pub serialize_user : User → Text → SerializedUser
serialize_user user token = record {
  bio = user.bio;
  email = user.email;
  image = user.image;
  token = token;
  username = user.username;
}
