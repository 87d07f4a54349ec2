-- ===== src/Session/Tests.antt =====
-- Session identifiers.
use webx_engine.Common.{ℕ, ◌≡◌, refl, List, [], ◌∷◌, some, none, arith}
use webx_engine.Text.{codes}
use webx_engine.Text.Numbers.{read_number, read_digits, skip_spaces}
use webx_engine.Session.{convert_session_id, session_id_bytes}
use webx_engine.Session.RoundTrip.{session_id_text, convert-session_id_text}

abbrev bytes_of_test : List ℕ
bytes_of_test =
    0 ∷ 17 ∷ 34 ∷ 51 ∷ 68 ∷ 85 ∷ 102 ∷ 119 ∷ 136 ∷ 153 ∷ 170 ∷ 187 ∷ 204 ∷ 221 ∷ 238 ∷ 255 ∷ []

too_short : convert_session_id (codes "0011") ≡ none
unfolding convert_session_id
too_short = refl

-- Characters that are no digits are read as zeros.
not_hexadecimal : session_id_bytes (codes "zz-f1g") ≡ 0 ∷ 241 ∷ 1 ∷ []
unfolding session_id_bytes read_number read_digits skip_spaces
not_hexadecimal = refl

convert-session_id_text_example :
    convert_session_id (session_id_text bytes_of_test) ≡ some bytes_of_test
convert-session_id_text_example = convert-session_id_text bytes_of_test refl (omega arith)
