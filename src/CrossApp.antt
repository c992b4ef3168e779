-- ===== src/CrossApp.antt =====
-- app/app/domain/cross_app.py: where a user came from. Parameters of a link are not trusted: what
-- does not follow the rules counts as absent. The configuration parsers of the file are not here.
use info_backend.Prelude.{
  ℕ, Bool, false, ◌&&◌, ◌||◌, Option, none, some, List, [], ◌∷◌, length, all, Text, contains, ◌==◌,
  leb, if◌then◌else◌,
}

pub record Origin : Type 0 where
  pub app : Text
  pub ref : Option Text

is_lower : ℕ → Bool
is_lower c = leb b'a' c && leb c b'z'

is_upper : ℕ → Bool
is_upper c = leb b'A' c && leb c b'Z'

is_ascii_digit : ℕ → Bool
is_ascii_digit c = leb b'0' c && leb c b'9'

-- `APP`: [a-z][a-z0-9-]{0,31}
unfoldable pub is_app : Text → Bool
unfolding is_lower is_ascii_digit
is_app [] = false
is_app (c ∷ rest) =
    is_lower c
    && leb (length rest) 31
    && all (λ x. is_lower x || is_ascii_digit x || x == b'-') rest

-- `REF`: [A-Za-z0-9._:-]{1,128}
unfoldable pub is_ref : Text → Bool
unfolding is_lower is_upper is_ascii_digit
is_ref text =
    leb 1 (length text)
    && leb (length text) 128
    && all
        (λ x.
          is_lower x
          || is_upper x
          || is_ascii_digit x
          || x == b'.'
          || x == b'_'
          || x == b':'
          || x == b'-')
        text

-- An absent parameter is `none`.
unfoldable pub clean_ref : Option Text → Option Text
unfolding is_ref
clean_ref none = none
clean_ref (some ref) = if is_ref ref then some ref else none

unfoldable pub clean_origin : List Text → Option Text → Option Text → Option Origin
unfolding clean_ref is_app contains
clean_origin known_apps none ref = none
clean_origin known_apps (some app) ref =
    if is_app app && contains known_apps app
    then some (record { app = app; ref = clean_ref ref })
    else none
