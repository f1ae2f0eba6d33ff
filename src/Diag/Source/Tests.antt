-- ===== src/Diag/Source/Tests.antt =====
-- Positions in a text with two newlines and a character of two bytes.
use jwc_lang.Diag.Source.Characters.{position, line_col-position}
use jwc_lang.Diag.Source.Boundary.{text_of}
use jwc_lang.Diag.Source.{
  new, starts_from, clamp, is_char_boundary, binary_search, line_index, start_of, count_chars,
  line_col,
}
use jwc_lang.Prelude.{List, [], ◌∷◌, ℕ, Bytes, utf8, encode_utf8, ◌≡◌, refl}

abbrev sample : Bytes
sample = utf8 "ab\nçd\ne"

-- The offset 4 is inside `ç`.
inside_a_character : ◌≡◌ {A = ℕ × ℕ} (line_col (new (utf8 "a.jwc") sample) 4) (2, 1)
unfolding line_col new starts_from clamp is_char_boundary binary_search line_index start_of
    count_chars encode_utf8
inside_a_character = refl

behind_the_text : ◌≡◌ {A = ℕ × ℕ} (line_col (new (utf8 "a.jwc") sample) 99) (3, 2)
unfolding line_col new starts_from clamp is_char_boundary binary_search line_index start_of
    count_chars encode_utf8
behind_the_text = refl

-- its characters
abbrev sample_characters : List ℕ
sample_characters = 97 ∷ 98 ∷ 10 ∷ 231 ∷ 100 ∷ 10 ∷ 101 ∷ []

sample_text : text_of sample_characters ≡ sample
unfolding encode_utf8
sample_text = refl

-- at an offset inside `ç`
line_col-position_example :
    line_col (new (utf8 "a.jwc") (text_of sample_characters)) 4
    ≡ position (1, 1) 4 sample_characters
line_col-position_example = line_col-position (utf8 "a.jwc") sample_characters 4
