-- ===== src/Http/RoundTrip.antt =====
-- The percent encoding of crates/lb-proxy/src/sticky.rs is undone by its decoding.
use distributed_load_balance.Prelude.{
  ℕ, ◌/◌, ◌%◌, ◌<◌, ◌≡◌, refl, ap, ◌∙◌, inl, inr, true, false, List, [], ◌∷◌, some, All, arith,
  ◌==◌, nat_eq, Bool-cases,
}
use distributed_load_balance.Http.Percent.{
  percent, is_unreserved, hex_digit, hex_value, from_str_radix, percent_encode, decode_bytes,
}

hex_value-hex_digit : (n : ℕ) → n < 16 → hex_value (hex_digit n) ≡ some n
unfolding hex_value hex_digit
hex_value-hex_digit n h = ground arith

hex_digit_ne_plus : (n : ℕ) → (hex_digit n == 43) ≡ false
unfolding hex_digit
hex_digit_ne_plus n = ground arith

from_str_radix-hex_digit :
    (b : ℕ) → b < 256 → from_str_radix (hex_digit (b / 16)) (hex_digit (b % 16)) ≡ some b
unfolding from_str_radix
from_str_radix-hex_digit b h =
    rw (hex_value-hex_digit (b % 16) (omega arith), from_str_radix)
      (rw (hex_digit_ne_plus (b / 16), hex_value-hex_digit (b / 16) (omega arith))
        (ap some (omega arith)))

unreserved_ne_percent : (b : ℕ) → is_unreserved b ≡ true → (b == percent) ≡ false
unfolding is_unreserved
unreserved_ne_percent b h = ground arith

-- A byte that starts no escape is passed through.
decode_bytes-other :
    (b : ℕ) (bs : List ℕ) → (b == percent) ≡ false → decode_bytes (b ∷ bs) ≡ b ∷ decode_bytes bs
unfolding decode_bytes
decode_bytes-other b [] h = refl
decode_bytes-other b (c ∷ []) h = refl
decode_bytes-other b (c ∷ d ∷ bs) h = rw (h, decode_bytes) refl

-- Any list of bytes is read back from its percent encoding.
pub decode_bytes-percent_encode :
    (bs : List ℕ) → All (λ b. b < 256) bs → decode_bytes (percent_encode bs) ≡ bs
unfolding percent_encode decode_bytes
decode_bytes-percent_encode [] h = refl
decode_bytes-percent_encode (b ∷ bs) h =
    let rest = decode_bytes-percent_encode bs h.1 in
    elim (Bool-cases (is_unreserved b)) [
      | inl e ↦
          rw (e, percent_encode)
            (decode_bytes-other b (percent_encode bs) (unreserved_ne_percent b e)
              ∙ ap (λ xs. b ∷ xs) rest)
      | inr e ↦
          rw (e, percent_encode)
            (rw (from_str_radix-hex_digit b h.0, decode_bytes) (ap (λ xs. b ∷ xs) rest))
    ]
