-- ===== src/Tests/Joins.antt =====
-- Tests of the joins for nested properties.
use t3api.Base.{ℕ, zero, suc, String, none, some, [], ◌∷◌, ◌≡◌, refl, if◌then◌else◌, ◌==◌}
use t3api.Result.{ok}
use t3api.Php.{str}
use t3api.Domain.Filter.{ApiFilter, search_filter}
use t3api.Filter.Statements.{Connection, selector, match_in_natural_language, match_statement}
use t3api.Tests.Samples.{query}
use t3api.Base.{false}
use t3api.Filter.Joins.{
  Mapping, Joins, ColumnMap, has_one, has_and_belongs_to_many, eq, add_joins_for_nested_property,
}
use t3api.Filter.Joins.Aliases.{IsSound}
use t3api.Filter.Joins.Sound.{HasKnown, add_joins-IsSound}

abbrev unary : ℕ → String
unary zero = "0"
unary (suc n) = String.◌∷◌ "1" (unary n)

abbrev author : ColumnMap
author = record {
  type_of_relation = has_one;
  parent_key_field_name = none;
  child_key_field_name = none;
  column_name = "author";
  child_table_name = "person";
  relation_table_name = "";
}

abbrev tags : ColumnMap
tags = record {
  type_of_relation = has_and_belongs_to_many;
  parent_key_field_name = some "uid_local";
  child_key_field_name = some "uid_foreign";
  column_name = "tags";
  child_table_name = "tag";
  relation_table_name = "person_tag";
}

abbrev mapping : Mapping
mapping = record {
  uniqid = unary;
  column_map = λ c a. if a == "author" then some author else some tags;
  get_type = λ c a. if a == "author" then ok "Person" else ok "Tag";
}

abbrev empty : Joins
empty = record { calls = 0; joins = [] }

joins_test : add_joins_for_nested_property mapping "author.tags.title" "o" "Book" empty ≡ (
  ok ("alias_10", "title"),
  record {
    calls = 3;
    joins =
        record {
          from_alias = "alias_0";
          table = "tag";
          alias = "alias_10";
          condition = eq "alias_110_mm.uid_foreign" "alias_10.uid";
        }
        ∷ record {
          from_alias = "alias_0";
          table = "person_tag";
          alias = "alias_110_mm";
          condition = eq "alias_0.uid" "alias_110_mm.uid_local";
        }
        ∷ record {
          from_alias = "o";
          table = "person";
          alias = "alias_0";
          condition = eq "o.author" "alias_0.uid";
        }
        ∷ [];
  },
)
unfolding add_joins_for_nested_property
joins_test = refl

add_joins-IsSound_example :
    IsSound mapping (add_joins_for_nested_property mapping "author.tags.title" "o" "Book" empty).1
    × HasKnown mapping
        (add_joins_for_nested_property mapping "author.tags.title" "o" "Book" empty).0
        (add_joins_for_nested_property mapping "author.tags.title" "o" "Book" empty).1
add_joins-IsSound_example = add_joins-IsSound mapping "author.tags.title" "Book" empty (tt, tt)

abbrev title_filter : ApiFilter
title_filter = record {
  filter_class = search_filter;
  strategy = record { name = "matchAgainst"; condition = none };
  property = "title";
  arguments = [];
}

abbrev connection : Connection
connection = record {
  mapping = mapping;
  source = λ q. selector "book";
  column_name = λ p f. p;
  run = λ s. ok [];
}

-- Keys that are no numbers become 0, so that the values of both share one parameter.
search_test :
    match_statement connection query "title" (("a", str "x") ∷ ("b", str "y") ∷ []) title_filter
    ≡ ok (record {
      table = "book";
      joins = [];
      criteria =
          match_in_natural_language "o.title" "text_ma_0" false
          ∷ match_in_natural_language "o.title" "text_ma_0" false
          ∷ [];
      binds = ("text_ma_0", str "y") ∷ [];
    })
unfolding match_statement t3api.Php.get t3api.Php.to_int t3api.Php.Number.text_of_int
    t3api.Domain.Filter.set_field
search_test = refl
