-- ===== src/Tests/Schemas.antt =====
-- Runs of the functions on SQL texts.
use address_quality.Prelude.{String, [], ◌∷◌, true, false, ◌≡◌, refl, select, not, ◌++◌}
use address_quality.Text.{is_space}
use address_quality.Text.Split.{split}
use address_quality.Itoa.{itoa}
use address_quality.Database.Dialect.{
  rebind, strip_sql_comments, is_comment, numbered, rebind-numbered, rebind_from,
}
use address_quality.Database.Dialect.Comments.{strip_sql_comments-lines}

abbrev by_code : String
by_code = "WHERE kode = ? AND id > ? AND name = ?"

abbrev schema : String
schema = "-- sources; one per decree\nCREATE a;\n  -- ids\nCREATE b; -- last\n"

rebind_run : rebind true by_code ≡ "WHERE kode = $1 AND id > $2 AND name = $3"
unfolding rebind rebind_from itoa
rebind_run = refl

strip_sql_comments_run : strip_sql_comments schema ≡ "CREATE a;\nCREATE b; -- last\n\n"
unfolding strip_sql_comments split is_comment is_space
strip_sql_comments_run = refl

rebind-numbered_example :
    (rebind true by_code ≡ numbered 0 (split 63 by_code)) × (rebind false by_code ≡ by_code)
rebind-numbered_example = rebind-numbered by_code

strip_sql_comments-lines_example :
    split 10 (strip_sql_comments schema)
    ≡ select (λ w. not (is_comment w)) (split 10 schema) ++ "" ∷ []
strip_sql_comments-lines_example = strip_sql_comments-lines schema
