-- ===== src/Ingestion/Json.antt =====
-- A parsed response (`parse_json` of app/app/application/securities/collectors/base.py), and what the
-- collectors take from outside: the parser, the patterns of `re`, and the texts of other values.
use info_backend.Prelude.{
  ◌≡◌, refl, ◌⊎◌, inl, inr, ℕ, zero, Bool, false, Option, none, some, List, [], ◌∷◌, ◌++◌, Text,
  text_eq, codes, if◌then◌else◌,
}
use info_backend.SecurityCode.{SecurityCode, Market, shanghai, shenzhen, beijing}
use info_backend.Ingestion.Domain.{Bytes, CollectError}

-- An object has each key once. `other` is a number that is not a natural one.
mutual
  pub data Json : Type 0 where
    null : Json
    flag : Bool → Json
    number : ℕ → Json
    other : Json
    text : Text → Json
    array : Array → Json
    object : Object → Json

  pub data Array : Type 0 where
    end : Array
    item : Json → Array → Array

  pub data Object : Type 0 where
    last : Object
    entry : Text → Json → Object → Object

unfoldable pub get : Text → Object → Option Json
get key last = none
get key (entry k v rest) = let later = get key rest in if text_eq k key then some v else later

abbrev pub values : Array → List Json
values end = []
values (item v rest) = v ∷ values rest

-- `payload.get(key) if isinstance(payload, dict) else None`
abbrev pub field_of : Text → Json → Option Json
field_of key (object o) = get key o
field_of key _ = none

-- `isinstance(value, list)`
abbrev pub as_list : Option Json → Option (List Json)
as_list (some (array a)) = some (values a)
as_list _ = none

-- `isinstance(value, int)`, which a Boolean passes
abbrev pub as_int : Option Json → Option ℕ
as_int (some (number n)) = some n
as_int (some (flag b)) = some (if b then 1 else 0)
as_int _ = none

pub record Reader : Type 0 where
  pub parse : Bytes → Option Json
  pub shown : Json → Text
  pub digit : ℕ → Bool
  pub lower : Text → Text
  pub company_type : Bytes → Option Text
  pub is_org_id : Text → Bool
  pub without_em : Text → Text
  pub has_word : Text → Text → Bool
  pub title_year : Text → Option ℕ
  pub is_adjunct : Text → Bool
  pub int_of : Text → Option ℕ
  pub shanghai_date : ℕ → Text

-- `str(value or "")`
abbrev pub text_or_empty : Reader → Option Json → Text
text_or_empty r none = []
text_or_empty r (some null) = []
text_or_empty r (some (text t)) = t
text_or_empty r (some (number zero)) = []
text_or_empty r (some (flag false)) = []
text_or_empty r (some (array end)) = []
text_or_empty r (some (object last)) = []
text_or_empty r (some v) = r.shown v

-- `CollectError("unexpected_response", what)`
abbrev pub unexpected : Text → CollectError
unexpected what = record { code = codes "unexpected_response"; detail = what }

abbrev pub market_text : Market → Text
market_text shanghai = codes "SH"
market_text shenzhen = codes "SZ"
market_text beijing = codes "BJ"

-- `prefixed`
abbrev pub prefixed : SecurityCode → Text
prefixed code = market_text code.market ++ code.code

-- What a collector reads in a response, or the error that it stops with
pub data Read (A : Type 0) : Type 0 where
  got : A → Read A
  unreadable : CollectError → Read A

pub Read-cases :
    {A : Type 0} (x : Read A) → ((a : A) × (x ≡ got a)) ⊎ ((e : CollectError) × (x ≡ unreadable e))
Read-cases (got a) = inl (a, refl)
Read-cases (unreadable e) = inr (e, refl)
