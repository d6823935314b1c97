-- ===== src/Balancer/Hash.antt =====
-- crates/lb-balancer/src/hash.rs: FNV-1a over parts, with a final mix. Bytes are numbers.
use Prim.Native.Nat.{bit_xor}
use distributed_load_balance.Prelude.{ℕ, ◌*◌, ◌/◌, ◌%◌, ◌^◌, List, [], ◌∷◌}

abbrev pub fnv_offset : ℕ
fnv_offset = 0xcbf29ce484222325

abbrev pub fnv_prime : ℕ
fnv_prime = 0x100000001b3

-- `h ^= byte; h = h.wrapping_mul(FNV_PRIME)`
abbrev mix : ℕ → ℕ → ℕ
mix h byte = bit_xor h byte * fnv_prime % 2 ^ 64

abbrev mix_all : ℕ → List ℕ → ℕ
mix_all h [] = h
mix_all h (b ∷ bs) = mix_all (mix h b) bs

abbrev mix_parts : ℕ → List (List ℕ) → ℕ
mix_parts h [] = h
mix_parts h (p ∷ ps) = mix_parts (mix_all (mix h 0xff) p) ps

-- No separator stands before the first part.
abbrev mix_first : List (List ℕ) → ℕ
mix_first [] = fnv_offset
mix_first (p ∷ ps) = mix_parts (mix_all fnv_offset p) ps

abbrev fold_high : ℕ → ℕ
fold_high h = bit_xor h (h / 2 ^ 33)

unfoldable pub hash_parts : List (List ℕ) → ℕ
hash_parts parts =
    let h = fold_high (mix_first parts) * 0xff51afd7ed558ccd % 2 ^ 64 in
    let h' = fold_high h * 0xc4ceb9fe1a85ec53 % 2 ^ 64 in fold_high h'
