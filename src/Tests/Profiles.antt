-- ===== src/Tests/Profiles.antt =====
-- Profiles.
use nest_js_tutorial.Base.{◌≡◌, codes}
use nest_js_tutorial.Runtime.{Outcome}
use nest_js_tutorial.Database.{Db}
use nest_js_tutorial.Database.Statements.{user_by_username}
use nest_js_tutorial.Database.Reliable.{steady_orm, steady_orm-IsReliable}
use nest_js_tutorial.Serializers.{SerializedAuthor}
use nest_js_tutorial.Profiles.{follow_profile}
use nest_js_tutorial.Profiles.Laws.{follow_decision, follow_profile_reliable}
use nest_js_tutorial.Tests.Data.{sample, world}

follow_profile_example :
    ◌≡◌ {A = Outcome SerializedAuthor × Db}
      (
        (follow_profile steady_orm (codes "jane") (codes "john") world).0,
        (follow_profile steady_orm (codes "jane") (codes "john") world).1.db,
      )
      (follow_decision
        (user_by_username (codes "jane") sample)
        (user_by_username (codes "john") sample)
        sample)
follow_profile_example =
    follow_profile_reliable steady_orm steady_orm-IsReliable (codes "jane") (codes "john") world
