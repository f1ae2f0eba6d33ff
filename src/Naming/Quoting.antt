-- ===== src/Naming/Quoting.antt =====
-- src/naming.rs: `quote_ident`.
pub mod Reading
use jwc_lang.Naming.{Text}
use jwc_lang.Prelude.{
  ℕ, Bool, true, false, not, ◌&&◌, ◌||◌, List, [], ◌∷◌, ◌++◌, map, String, ◌==◌, if◌then◌else◌,
  codes, is_lower, is_digit,
}

unfoldable pub same_text : Text → Text → Bool
same_text [] [] = true
same_text (a ∷ s) (b ∷ t) = a == b && same_text s t
same_text _ _ = false

unfoldable pub contains : List Text → Text → Bool
unfolding same_text
contains [] t = false
contains (s ∷ rest) t = same_text s t || contains rest t

-- the words of `is_reserved_sql`
unfoldable pub reserved_words : List Text
reserved_words = map codes (
    "all" ∷ "analyse" ∷ "analyze" ∷ "and" ∷ "any" ∷ "array" ∷ "as" ∷ "asc" ∷ "authorization"
    ∷ "between" ∷ "both" ∷ "case" ∷ "cast" ∷ "check" ∷ "collate" ∷ "column" ∷ "constraint"
    ∷ "create" ∷ "current_date" ∷ "current_role" ∷ "current_time" ∷ "current_timestamp"
    ∷ "current_user" ∷ "default" ∷ "deferrable" ∷ "desc" ∷ "distinct" ∷ "do" ∷ "else" ∷ "end"
    ∷ "except" ∷ "false" ∷ "for" ∷ "foreign" ∷ "from" ∷ "grant" ∷ "group" ∷ "having" ∷ "in"
    ∷ "initially" ∷ "intersect" ∷ "into" ∷ "leading" ∷ "limit" ∷ "localtime" ∷ "localtimestamp"
    ∷ "new" ∷ "not" ∷ "null" ∷ "off" ∷ "offset" ∷ "old" ∷ "on" ∷ "only" ∷ "or" ∷ "order" ∷ "placing"
    ∷ "primary" ∷ "references" ∷ "returning" ∷ "select" ∷ "session_user" ∷ "some" ∷ "symmetric"
    ∷ "table" ∷ "then" ∷ "to" ∷ "trailing" ∷ "true" ∷ "union" ∷ "unique" ∷ "user" ∷ "using" ∷ "when"
    ∷ "where" ∷ "window" ∷ "with" ∷ [])

unfoldable pub is_reserved_sql : Text → Bool
unfolding contains reserved_words
is_reserved_sql name = contains reserved_words name

abbrev pub plain_char : ℕ → Bool
plain_char c = is_lower c || is_digit c || c == b'_'

abbrev pub all_plain : Text → Bool
all_plain [] = true
all_plain (c ∷ cs) = plain_char c && all_plain cs

abbrev pub starts_plain : Text → Bool
starts_plain [] = false
starts_plain (c ∷ _) = is_lower c || c == b'_'

-- `replace('"', "\"\"")`
unfoldable pub double_quotes : Text → Text
double_quotes [] = []
double_quotes (c ∷ cs) =
    let rest = double_quotes cs in if c == b'"' then b'"' ∷ b'"' ∷ rest else c ∷ rest

unfoldable pub quote_ident : Text → Text
quote_ident name =
    if (starts_plain name && all_plain name) && not (is_reserved_sql name)
    then name
    else b'"' ∷ (double_quotes name ++ (b'"' ∷ []))
