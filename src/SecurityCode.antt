-- ===== src/SecurityCode.antt =====
-- `SecurityCode` of app/app/domain/securities/models.py: the A-share codes that the program takes.
-- Which characters the pattern `\d` matches is a table of Python's `re`, so it is a parameter.
use info_backend.Prelude.{
  ℕ, Bool, ◌&&◌, ◌||◌, Option, none, some, [], ◌∷◌, length, all, Text, codes, starts_with, ◌==◌,
  if◌then◌else◌,
}

pub data Market : Type 0 where
  shanghai shenzhen beijing : Market

-- `market`; it is read only behind the test for six digits, so the empty code never occurs.
unfoldable pub market : Text → Option Market
unfolding starts_with
market [] = none
market (head ∷ rest) =
    let text = head ∷ rest in
    if starts_with text (codes "900") || starts_with text (codes "200")
    then none
    else if head == b'6'
    then some shanghai
    else if head == b'0' || head == b'3'
    then some shenzhen
    else if head == b'4' || head == b'8' || starts_with text (codes "92")
    then some beijing
    else none

pub record SecurityCode : Type 0 where
  pub code : Text
  pub market : Market

with_market : Text → Option Market → Option SecurityCode
with_market text none = none
with_market text (some m) = some (record { code = text; market = m })

-- `SecurityCode(raw)`; `none` is `InvalidSecurityCode`.
unfoldable pub security_code : (ℕ → Bool) → Text → Option SecurityCode
unfolding market with_market
security_code digit raw =
    if length raw == 6 && all digit raw then with_market raw (market raw) else none
