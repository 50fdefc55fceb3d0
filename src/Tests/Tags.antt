-- ===== src/Tests/Tags.antt =====
-- The list of the tags.
use nest_js_tutorial.Base.{
  ◌≡◌, refl, Bool, true, false, Text, codes, leb, [], ◌∷◌, map, count, ◌==◌, arith,
}
use nest_js_tutorial.Database.{Tag, World}
use nest_js_tutorial.Database.Reliable.{steady_orm}
use nest_js_tutorial.Tags.{TagList, insert_by_name, order_by_name, list_names, tags_route}
use nest_js_tutorial.Tags.Laws.{is_sorted, tags_route_returned}
use nest_js_tutorial.Tests.Data.{sample}

abbrev tag : Text → Text → Tag
tag id name = record { id = id; name = name }

abbrev tagged : World (Unit {0})
tagged = record {
  db = record sample { tags = tag (codes "t1") (codes "x") ∷ tag (codes "t2") (codes "a") ∷ [] };
  env = tt;
}

-- A collation that compares first letters.
abbrev by_first : Text → Text → Bool
by_first [] b = true
by_first (c ∷ s) [] = false
by_first (c ∷ s) (d ∷ t) = leb c d

by_first-total : (a b : Text) → by_first a b ≡ false → by_first b a ≡ true
by_first-total [] b h = cc
by_first-total (c ∷ s) [] h = refl
by_first-total (c ∷ s) (d ∷ t) h = ground arith

abbrev shown : TagList
shown = record { tags = codes "a" ∷ codes "x" ∷ [] }

tags_example :
    (tagged.db ≡ tagged.db)
    × (is_sorted by_first shown.tags ≡ true)
    × ((name : Text)
        → count (λ n. n == name) shown.tags ≡ count (λ n. n == name) (map Tag.name tagged.db.tags))
unfolding tags_route list_names order_by_name insert_by_name
tags_example = tags_route_returned by_first by_first-total steady_orm tagged tagged shown refl
