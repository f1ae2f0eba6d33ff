-- ===== src/Token/Keywords/Tests.antt =====
-- Words of the grammar, and a word that is not one.
use jwc_lang.Prelude.{codes, ◌≡◌, ◌↔◌, refl, true, false, ℕ}
use jwc_lang.Token.Keywords.Search.{IsAt, is_keyword_iff}
use jwc_lang.Token.Keywords.{bytes_lt, word_at, narrow, is_keyword, keywords}

first_word : is_keyword (codes "after") ≡ true
unfolding is_keyword bytes_lt word_at narrow
first_word = refl

last_word : is_keyword (codes "with") ≡ true
unfolding is_keyword bytes_lt word_at narrow
last_word = refl

not_a_word : is_keyword (codes "errors") ≡ false
unfolding is_keyword bytes_lt word_at narrow
not_a_word = refl

is_keyword_iff_example :
    (is_keyword (codes "table") ≡ true) ↔ ((p : ℕ) × IsAt keywords (codes "table") p)
is_keyword_iff_example = is_keyword_iff (codes "table")
