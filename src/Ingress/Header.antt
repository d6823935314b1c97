-- ===== src/Ingress/Header.antt =====
-- What the readers of crates/lb-server/src/proxy_protocol.rs take from the stream, and that they read
-- what a proxy writes.
use distributed_load_balance.Prelude.{
  ℕ, zero, suc, ◌+◌, ◌*◌, ◌/◌, ◌%◌, ◌≤◌, ◌≡◌, refl, sym, ap, ◌∙◌, inl, inr, true, false, List, [],
  ◌∷◌, ◌++◌, some, length, ltb, nat_eq, arith, length-append, Bool-cases,
}
use distributed_load_balance.Pool.Backend.{v4}
use distributed_load_balance.Ingress.ProxyProtocol.{
  ok, read_exact, read_line, ends_crlf, v1_max_len, v2_max_len, v2_signature, read_header, Parsers,
}

-- The header of a TCP connection over IPv4, by the specification of the protocol: signature, version
-- and command, family, length, the addresses and the ports, and the type-length-value fields after
-- them, which the length covers.
abbrev pub v4_header : List ℕ → List ℕ → ℕ → List ℕ → List ℕ → List ℕ
v4_header source destination port destination_port fields =
    let len = 12 + length fields in
    v2_signature
    ++ 33 ∷ 17 ∷ len / 256 ∷ len % 256 ∷ source
    ++ destination
    ++ port / 256 ∷ port % 256 ∷ destination_port
    ++ fields

two_bytes : (n : ℕ) → n / 256 * 256 + n % 256 ≡ n
two_bytes n = omega arith

read_exact-append : (n : ℕ) (xs ys : List ℕ) → length xs ≡ n → read_exact n (xs ++ ys) ≡ ok (xs, ys)
unfolding read_exact
read_exact-append zero [] ys h = refl
read_exact-append zero (x ∷ xs) ys h = absurd (omega (arith, h))
read_exact-append (suc n) [] ys h = absurd (omega (arith, h))
read_exact-append (suc n) (x ∷ xs) ys h = rw (read_exact-append n xs ys (omega (arith, h))) refl

-- A version 2 header for IPv4 within the reader's bound, with any fields after the addresses, is read
-- back: the source address and port that it announces, and all that follows the header is left on
-- the stream, nothing of the fields with it.
pub read_header-v4_header :
    (p : Parsers) (a b c d e f g h port i j : ℕ) (fields rest : List ℕ)
    → 12 + length fields ≤ v2_max_len
    → read_header p
        (v4_header (a ∷ b ∷ c ∷ d ∷ []) (e ∷ f ∷ g ∷ h ∷ []) port (i ∷ j ∷ []) fields ++ rest)
      ≡ ok (
        some (record { ip = v4 (a ∷ b ∷ c ∷ d ∷ []); port = port; flowinfo = 0; scope_id = 0 }),
        rest,
      )
unfolding read_header
read_header-v4_header p a b c d e f g h port i j fields rest small =
    let len = 12 + length fields in
    let body = a ∷ b ∷ c ∷ d ∷ e ∷ f ∷ g ∷ h ∷ port / 256 ∷ port % 256 ∷ i ∷ j ∷ fields in
    let bound : ltb v2_max_len len ≡ false = ground (arith, small) in
    let taken : read_exact len (body ++ rest) ≡ ok (body, rest) =
      read_exact-append len body rest (omega arith) in
    let enough : ltb (length body) 12 ≡ false = ground arith in
    rw (two_bytes len) (rw bound (rw taken (rw enough (rw (two_bytes port) refl))))

append-snoc :
    (line : List ℕ) (b : ℕ) (stream : List ℕ) → (line ++ b ∷ []) ++ stream ≡ line ++ b ∷ stream
append-snoc [] b stream = refl
append-snoc (x ∷ xs) b stream = ap (λ l. x ∷ l) (append-snoc xs b stream)

-- The line that the first version's reader takes is the front of the stream, ends with a line end and
-- is no longer than 108 bytes, where the part that was read before has at most 107.
pub read_line-prefix :
    (line stream taken rest : List ℕ)
    → length line ≤ v1_max_len
    → read_line line stream ≡ ok (taken, rest)
    → (line ++ stream ≡ taken ++ rest) × (ends_crlf taken ≡ true) × (length taken ≤ 108)
unfolding read_line
read_line-prefix line [] taken rest le e = cc
read_line-prefix line (b ∷ stream) taken rest le e =
    let line' = line ++ b ∷ [] in
    let grown : length line' ≡ length line + 1 = length-append line (b ∷ []) in
    elim (Bool-cases (ends_crlf line')) [
      | inl done ↦
          let same : ok (line', stream) ≡ ok (taken, rest) = rw (done, read_line) at e in
          let l : line' ≡ taken = cc in
          let r : stream ≡ rest = cc in
          rw (← l, ← r) (sym (append-snoc line b stream), done, omega (arith, grown))
      | inr more ↦ elim (Bool-cases (ltb v1_max_len (length line'))) [
        | inl long ↦ cc (rw long at (rw (more, read_line) at e))
        | inr short ↦
            let (a, c, k) =
              read_line-prefix line' stream taken rest (ground (arith, short))
                (rw short at (rw (more, read_line) at e)) in
            (sym (append-snoc line b stream) ∙ a, c, k)
      ]
    ]
