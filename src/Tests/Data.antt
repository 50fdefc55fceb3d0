-- ===== src/Tests/Data.antt =====
-- A small database and the drivers of Database.Reliable over it.
use nest_js_tutorial.Base.{codes, none, some, [], ◌∷◌, Bool, false}
use nest_js_tutorial.Runtime.{Outcome, returned, thrown}
use nest_js_tutorial.Database.{Db, User, Article, World}
use nest_js_tutorial.Serializers.{ArticleDetail}
use nest_js_tutorial.Articles.Slug.{Unicode}

abbrev pub result : {A : Type 0} → Outcome A → A → A
result (returned a) b = a
result (thrown e) b = b

abbrev pub jane : User
jane = record {
  id = codes "u1";
  username = codes "jane";
  email = codes "jane@example.com";
  password_hash = codes "h1";
  bio = none;
  image = none;
  created_at = 1;
  updated_at = 1;
}

abbrev pub john : User
john = record {
  id = codes "u2";
  username = codes "john";
  email = codes "john@example.com";
  password_hash = codes "h2";
  bio = some (codes "hi");
  image = none;
  created_at = 2;
  updated_at = 2;
}

abbrev pub hello : Article
hello = record {
  id = codes "a1";
  slug = codes "hello-1";
  title = codes "Hello";
  description = codes "d";
  body = codes "b";
  author_id = codes "u1";
  created_at = 5;
  updated_at = 5;
}

abbrev pub sample : Db
sample = record {
  users = jane ∷ john ∷ [];
  articles = hello ∷ [];
  tags = record { id = codes "t1"; name = codes "x" } ∷ [];
  article_tags = record { article_id = codes "a1"; tag_id = codes "t1"; position = 0 } ∷ [];
  article_favorites = [];
  comments = [];
  user_follows = [];
  attachments = [];
  outbox = [];
}

abbrev pub world : World (Unit {0})
world = record { db = sample; env = tt }

-- Unicode on ASCII, but for `toLowerCase`, which this test data does not need.
abbrev pub ascii : Unicode
ascii = record { nfkd = λ s. s; is_mark = λ c. Bool.false; to_lower_case = λ s. s }

abbrev pub blank : ArticleDetail
blank = record {
  fields = record {
    slug = [];
    title = [];
    description = [];
    tag_list = [];
    created_at = 0;
    updated_at = 0;
    favorited = false;
    favorites_count = 0;
    author = record { username = []; bio = none; image = none; following = false };
  };
  body = [];
}
