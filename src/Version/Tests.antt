-- ===== src/Version/Tests.antt =====
-- The reading of some texts as versions.
use webx_engine.Common.{◌≡◌, refl, arith}
use webx_engine.Message.{Version}
use webx_engine.Text.{codes, split}
use webx_engine.Text.Numbers.{emit, stoi, read_number, skip_spaces, read_digits}
use webx_engine.Version.{no_version, version_string, component, parse_all}
use webx_engine.Version.RoundTrip.{parse-version_string}
use webx_engine.Version.Canonical.{parse-canonical}

abbrev engine_version_of_test : Version
engine_version_of_test = record { major = 1; minor = 5; patch = 0 }

text_of_test : version_string engine_version_of_test ≡ codes "1.5.0"
unfolding version_string emit
text_of_test = refl

three_parts : parse_all (codes "1.5") ≡ no_version
unfolding parse_all split component stoi read_number skip_spaces read_digits
three_parts = refl

trailing_letters : parse_all (codes "1.5.0b") ≡ no_version
unfolding parse_all split component stoi read_number skip_spaces read_digits
trailing_letters = refl

negative_part : parse_all (codes "1.-5.0") ≡ no_version
unfolding parse_all split component stoi read_number skip_spaces read_digits
negative_part = refl

-- A delimiter that ends the text leaves no part behind it, and a part may have a sign and spaces.
loose_parts : parse_all (codes " 1.+5.0.") ≡ engine_version_of_test
unfolding parse_all split component stoi read_number skip_spaces read_digits
loose_parts = refl

too_large : parse_all (codes "1.2147483648.0") ≡ no_version
unfolding parse_all split component stoi read_number skip_spaces read_digits
too_large = refl

parse-version_string_example :
    parse_all (version_string engine_version_of_test) ≡ engine_version_of_test
parse-version_string_example = parse-version_string engine_version_of_test (omega arith)

parse-canonical_example :
    parse_all (version_string (parse_all (codes "1.+5.0"))) ≡ parse_all (codes "1.+5.0")
parse-canonical_example = parse-canonical (codes "1.+5.0")
