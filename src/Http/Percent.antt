-- ===== src/Http/Percent.antt =====
-- crates/lb-proxy/src/sticky.rs: the percent encoding of a backend id in a sticky cookie. A string is
-- its list of bytes.
use distributed_load_balance.Prelude.{
  ℕ, ◌+◌, ◌-◌, ◌*◌, ◌/◌, ◌%◌, Bool, ◌||◌, ◌&&◌, List, [], ◌∷◌, Option, none, some, ltb, leb,
  if◌then◌else◌, ◌==◌, nat_eq, ◌≡◌, true, All,
}

abbrev pub percent : ℕ
percent = 37

abbrev between : ℕ → ℕ → ℕ → Bool
between low high b = leb low b && leb b high

-- Letters, digits, and `-`, `_`, `.` and `~`.
unfoldable pub is_unreserved : ℕ → Bool
is_unreserved b =
    between 48 57 b
    || between 65 90 b
    || between 97 122 b
    || b == 45
    || b == 95
    || b == 46
    || b == 126

-- A digit of `{:02X}`.
unfoldable pub hex_digit : ℕ → ℕ
hex_digit n = if ltb n 10 then 48 + n else 55 + n

unfoldable pub percent_encode : List ℕ → List ℕ
unfolding is_unreserved hex_digit
percent_encode [] = []
percent_encode (b ∷ bs) =
    let rest = percent_encode bs in
    if is_unreserved b then b ∷ rest else percent ∷ hex_digit (b / 16) ∷ hex_digit (b % 16) ∷ rest

unfoldable pub hex_value : ℕ → Option ℕ
hex_value c =
    if between 48 57 c
    then some (c - 48)
    else if between 65 70 c
    then some (c - 55)
    else if between 97 102 c
    then some (c - 87)
    else none

-- `u8::from_str_radix` on two bytes, which takes a leading plus sign.
unfoldable pub from_str_radix : ℕ → ℕ → Option ℕ
unfolding hex_value
from_str_radix h l = elim (hex_value l) [
  | none ↦ none
  | some low ↦
      if h == 43
      then some low
      else elim (hex_value h) [ none ↦ none | some high ↦ some (high * 16 + low) ]
]

-- The loop of `percent_decode`. An escape that is not recognised is passed through.
unfoldable pub decode_bytes : List ℕ → List ℕ
unfolding from_str_radix
decode_bytes [] = []
decode_bytes (b ∷ []) = b ∷ []
decode_bytes (b ∷ c ∷ []) = b ∷ c ∷ []
decode_bytes (b ∷ h ∷ l ∷ bs) = elim (if b == percent then from_str_radix h l else none) [
  | none ↦ b ∷ decode_bytes (h ∷ l ∷ bs)
  | some byte ↦ byte ∷ decode_bytes bs
]

-- Tab and the visible bytes of ASCII.
abbrev pub is_visible : ℕ → Bool
is_visible b = between 32 126 b || b == 9

-- What the code uses of strings: `HeaderValue::to_str`, which takes visible ASCII, and
-- `String::from_utf8` with `String::from_utf8_lossy`, which replaces what is no UTF-8.
pub record Text : Type 0 where
  pub to_str : List ℕ → Option (List ℕ)
  pub is_utf8 : List ℕ → Bool
  pub from_utf8_lossy : List ℕ → List ℕ
  pub to_str_visible : (bs : List ℕ) → All (λ b. is_visible b ≡ true) bs → to_str bs ≡ some bs

unfoldable pub percent_decode : Text → List ℕ → List ℕ
unfolding decode_bytes
percent_decode t bs =
    let out = decode_bytes bs in if t.is_utf8 out then out else t.from_utf8_lossy out
