-- ===== src/Auth/Phone.antt =====
-- `normalisePhone` of backend/src/modules/auth/otp.service.ts, on the text's characters.
pub mod Normal
use Prim.Native.Char.{Char, code}
use Prim.Native.String.{◌++◌}
use last_chance_platform.Prelude.{
  ℕ, ◌+◌, Bool, true, false, not, ◌&&◌, ◌||◌, String, Option, none, some, ltb, leb, ◌==◌,
  if◌then◌else◌, is_space,
}
use last_chance_platform.Prelude.Result.{Result, ok, err}
use last_chance_platform.Errors.{DomainError}

-- A character of `[\s()-]`: white space, the brackets, the dash.
abbrev pub is_separator : ℕ → Bool
is_separator c = is_space c || (c == b'(' || (c == b')' || c == b'-'))

abbrev pub is_digit : ℕ → Bool
is_digit c = leb b'0' c && leb c b'9'

-- `raw.replace(/[\s()-]/g, '')`
unfoldable pub strip : String → String
strip String.[] = ""
strip (String.◌∷◌ c s) =
    let rest = strip s in if is_separator (code c) then rest else String.◌∷◌ c rest

-- `candidate.startsWith('00')`, then `+${candidate.slice(2)}`
unfoldable pub dial_out : String → String
dial_out (String.◌∷◌ a (String.◌∷◌ b s)) =
    if code a == b'0' && code b == b'0' then "+" ++ s else String.◌∷◌ a (String.◌∷◌ b s)
dial_out s = s

-- `candidate.startsWith('966')`
unfoldable pub has_country : String → Bool
has_country (String.◌∷◌ a (String.◌∷◌ b (String.◌∷◌ c _))) =
    code a == b'9' && (code b == b'6' && code c == b'6')
has_country _ = false

-- A text that does not start with `+`: the local format, the country code, or a bare number.
unfoldable pub with_country : String → String
with_country String.[] = "+966"
with_country (String.◌∷◌ c s) =
    if code c == b'+'
    then String.◌∷◌ c s
    else if code c == b'0'
    then "+966" ++ s
    else if has_country (String.◌∷◌ c s)
    then "+" ++ String.◌∷◌ c s
    else "+966" ++ String.◌∷◌ c s

unfoldable pub all_digits : String → Bool
all_digits String.[] = true
all_digits (String.◌∷◌ c s) = is_digit (code c) && all_digits s

unfoldable pub length : String → ℕ
length String.[] = 0
length (String.◌∷◌ _ s) = length s + 1

-- `/^\+[1-9][0-9]{6,14}$/`
unfoldable pub is_e164 : String → Bool
is_e164 (String.◌∷◌ plus (String.◌∷◌ first rest)) =
    (code plus == b'+' && (leb b'1' (code first) && leb (code first) b'9'))
    && (all_digits rest && (leb 6 (length rest) && leb (length rest) 14))
is_e164 _ = false

unfoldable pub normalise_phone : String → Result DomainError String
normalise_phone raw =
    let candidate = with_country (dial_out (strip raw)) in
    if is_e164 candidate then ok candidate else err DomainError.validation_failed
