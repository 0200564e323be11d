-- ===== src/Auth/Phone/Normal.antt =====
-- About the numbers that `normalisePhone` gives.
use Prim.Native.Char.{code}
use last_chance_platform.Prelude.{
  ◌≡◌, refl, true, false, ◌&&◌, String, ◌==◌, Bool-cases, inl, inr, arith,
}
use last_chance_platform.Prelude.Result.{ok, ok-injective}
use last_chance_platform.Auth.Phone.{
  is_separator, strip, dial_out, with_country, all_digits, is_e164, normalise_phone,
}

strip_digits : (s : String) → all_digits s ≡ true → strip s ≡ s
unfolding strip all_digits
strip_digits String.[] h = refl
strip_digits (String.◌∷◌ c s) h =
    let rest = strip_digits s (ground arith) in
    let kept : is_separator (code c) ≡ false = ground arith in rw (kept, rest) refl

strip_e164 : (s : String) → is_e164 s ≡ true → strip s ≡ s
unfolding strip is_e164
strip_e164 String.[] h = refl
strip_e164 (String.◌∷◌ a String.[]) h = cc
strip_e164 (String.◌∷◌ a (String.◌∷◌ b s)) h =
    let rest = strip_digits s (ground arith) in
    let plus : is_separator (code a) ≡ false = ground arith in
    let first : is_separator (code b) ≡ false = ground arith in rw (plus, first, rest) refl

prefix_e164 : (s : String) → is_e164 s ≡ true → with_country (dial_out s) ≡ s
unfolding dial_out with_country is_e164
prefix_e164 String.[] h = cc
prefix_e164 (String.◌∷◌ a String.[]) h = cc
prefix_e164 (String.◌∷◌ a (String.◌∷◌ b s)) h =
    let no_zeros : (code a == b'0' && code b == b'0') ≡ false = ground arith in
    let plus : (code a == b'+') ≡ true = ground arith in rw (no_zeros, plus) refl

e164-normal : (s : String) → is_e164 s ≡ true → normalise_phone s ≡ ok s
unfolding normalise_phone
e164-normal s h = rw (strip_e164 s h, prefix_e164 s h, h) refl

normalise_phone-is_e164 :
    (raw phone : String) → normalise_phone raw ≡ ok phone → is_e164 phone ≡ true
unfolding normalise_phone
normalise_phone-is_e164 raw phone h =
    let candidate = with_country (dial_out (strip raw)) in
    elim (Bool-cases (is_e164 candidate)) [
      | inl valid ↦ (let same = ok-injective (rw valid at h) in cc)
      | inr wrong ↦ (let refused = rw wrong at h in cc)
    ]

-- A number that `normalise_phone` gives has the form of E.164, and normalising it again gives the
-- same number.
pub normalise_phone_stable :
    (raw phone : String)
    → normalise_phone raw ≡ ok phone
    → (is_e164 phone ≡ true) × (normalise_phone phone ≡ ok phone)
normalise_phone_stable raw phone h =
    let valid = normalise_phone-is_e164 raw phone h in (valid, e164-normal phone valid)
