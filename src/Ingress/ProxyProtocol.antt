-- ===== src/Ingress/ProxyProtocol.antt =====
-- crates/lb-server/src/proxy_protocol.rs: the header of a trusted proxy in front. The stream is the
-- list of the bytes that will come; a read past its end is the I/O error. What is left of the stream
-- is returned with the address.
use distributed_load_balance.Prelude.{
  ℕ, zero, suc, ◌+◌, ◌*◌, ◌/◌, ◌%◌, Bool, true, false, not, ◌&&◌, List, [], ◌∷◌, ◌++◌, Option, none,
  some, String, length, ltb, if◌then◌else◌, ◌==◌, nat_eq,
}
use distributed_load_balance.Pool.Backend.{IpAddr, v4, v6, SocketAddr}

abbrev pub v1_max_len : ℕ
v1_max_len = 107

abbrev pub v2_max_len : ℕ
v2_max_len = 4096

abbrev pub v2_signature : List ℕ
v2_signature = 13 ∷ 10 ∷ 13 ∷ 10 ∷ 0 ∷ 13 ∷ 10 ∷ 81 ∷ 85 ∷ 73 ∷ 84 ∷ 10 ∷ []

-- `ProxyProtocolError`, and the `Result`.
pub data Outcome (A : Type 0) : Type 0 where
  io : Outcome A
  malformed : String → Outcome A
  ok : A → Outcome A

abbrev pub and_then : {A B : Type 0} → Outcome A → (A → Outcome B) → Outcome B
and_then io f = io
and_then (malformed reason) f = malformed reason
and_then (ok a) f = f a

abbrev pub ok_or : {A : Type 0} → Option A → String → Outcome A
ok_or none reason = malformed reason
ok_or (some a) reason = ok a

-- `read_exact` of `n` bytes.
unfoldable pub read_exact : ℕ → List ℕ → Outcome (List ℕ × List ℕ)
read_exact zero stream = ok ([], stream)
read_exact (suc n) [] = io
read_exact (suc n) (b ∷ stream) =
    and_then (read_exact n stream) (λ (taken, rest). ok (b ∷ taken, rest))

abbrev pub bytes_eq : List ℕ → List ℕ → Bool
bytes_eq [] [] = true
bytes_eq (a ∷ as') (b ∷ bs) = a == b && bytes_eq as' bs
bytes_eq _ _ = false

abbrev pub take : ℕ → List ℕ → List ℕ
take zero bs = []
take (suc n) [] = []
take (suc n) (b ∷ bs) = b ∷ take n bs

-- Byte `i`, of a list that is long enough.
abbrev pub byte : List ℕ → ℕ → ℕ
byte [] i = 0
byte (b ∷ bs) zero = b
byte (b ∷ bs) (suc i) = byte bs i

abbrev pub be16 : List ℕ → ℕ → ℕ
be16 bs i = byte bs i * 256 + byte bs (i + 1)

-- The `match` on the family.
unfoldable pub address_block : ℕ → List ℕ → Outcome (Option SocketAddr)
address_block family body =
    if family == 0
    then ok none
    else if family == 17
    then if ltb (length body) 12
      then malformed "v2 TCPv4 address block too short"
      else ok
          (some (record { ip = v4 (take 4 body); port = be16 body 8; flowinfo = 0; scope_id = 0 }))
    else if family == 33
    then if ltb (length body) 36
      then malformed "v2 TCPv6 address block too short"
      else ok (
          some (record { ip = v6 (take 16 body); port = be16 body 32; flowinfo = 0; scope_id = 0 }))
    else malformed "unsupported v2 address family"

-- After the body: the command.
unfoldable pub v2_command : List ℕ → List ℕ → Outcome (Option SocketAddr)
unfolding address_block
v2_command header body =
    let command = byte header 12 % 16 in
    if command == 0
    then ok none
    else if not (command == 1)
    then malformed "unsupported v2 command"
    else address_block (byte header 13) body

-- After the sixteen bytes of the header.
unfoldable pub v2_body : List ℕ → List ℕ → Outcome (Option SocketAddr × List ℕ)
unfolding read_exact v2_command
v2_body header stream =
    let len = be16 header 14 in
    if not (bytes_eq (take 12 header) v2_signature)
    then malformed "bad v2 signature"
    else if not (byte header 12 / 16 == 2)
    then malformed "unsupported v2 version"
    else if ltb v2_max_len len
    then malformed "v2 length exceeds sanity bound"
    else and_then (read_exact len stream)
        (λ (body, rest). and_then (v2_command header body) (λ address. ok (address, rest)))

unfoldable pub read_v2 : List ℕ → Outcome (Option SocketAddr × List ℕ)
unfolding read_exact v2_body
read_v2 stream = and_then (read_exact 16 stream) (λ (header, rest). v2_body header rest)

abbrev pub ends_crlf : List ℕ → Bool
ends_crlf [] = false
ends_crlf (a ∷ []) = false
ends_crlf (a ∷ b ∷ []) = a == 13 && b == 10
ends_crlf (a ∷ b ∷ c ∷ bs) = ends_crlf (b ∷ c ∷ bs)

-- The loop of `read_v1`, from the part of the line that is read.
unfoldable pub read_line : List ℕ → List ℕ → Outcome (List ℕ × List ℕ)
read_line line [] = io
read_line line (b ∷ stream) =
    let line' = line ++ b ∷ [] in
    let later = read_line line' stream in
    if ends_crlf line'
    then ok (line', stream)
    else if ltb v1_max_len (length line')
    then malformed "v1 header exceeds 107 bytes"
    else later

-- `trim_end_matches`, of a line that has its one line end at the end.
abbrev pub trim_end : List ℕ → List ℕ
trim_end [] = []
trim_end (a ∷ []) = a ∷ []
trim_end (a ∷ b ∷ bs) = if bytes_eq (a ∷ b ∷ bs) (13 ∷ 10 ∷ []) then [] else a ∷ trim_end (b ∷ bs)

-- `split(' ')`: the first part, and the rest.
abbrev pub split_space : List ℕ → List ℕ × List (List ℕ)
split_space [] = ([], [])
split_space (b ∷ bs) =
    let (part, parts) = split_space bs in if b == 32 then ([], part ∷ parts) else (b ∷ part, parts)

-- `parts.next()`.
abbrev pub next_part : List (List ℕ) → Option (List ℕ × List (List ℕ))
next_part [] = none
next_part (p ∷ ps) = some (p, ps)

-- The standard library's check of UTF-8, and its readers of addresses and of `u16`.
pub record Parsers : Type 0 where
  pub is_utf8 : List ℕ → Bool
  pub parse_ip : List ℕ → Option IpAddr
  pub parse_port : List ℕ → Option ℕ

module _ (p : Parsers) where
  -- The four fields after the protocol.
  unfoldable pub v1_addresses : List (List ℕ) → Outcome (Option SocketAddr)
  v1_addresses parts =
      and_then (ok_or (next_part parts) "v1 header missing source address") (λ (src_ip, ps).
        and_then (ok_or (next_part ps) "v1 header missing destination address") (λ (dst_ip, qs).
          and_then (ok_or (next_part qs) "v1 header missing source port") (λ (src_port, rs).
            and_then (ok_or (next_part rs) "v1 header missing destination port") (λ (dst_port, ss).
              and_then (ok_or (p.parse_ip src_ip) "v1 header has an unparseable source address")
                (λ ip.
                  and_then
                    (ok_or (p.parse_port src_port) "v1 header has an unparseable source port")
                    (λ port.
                      ok (some (record { ip = ip; port = port; flowinfo = 0; scope_id = 0 }))))))))

  -- The bytes of "PROXY", "UNKNOWN", "TCP4" and "TCP6".
  unfoldable pub v1_fields : List ℕ → Outcome (Option SocketAddr)
  unfolding v1_addresses
  v1_fields text =
      let (keyword, parts) = split_space text in
      if not (bytes_eq keyword (80 ∷ 82 ∷ 79 ∷ 88 ∷ 89 ∷ []))
      then malformed "v1 header missing PROXY keyword"
      else and_then (ok_or (next_part parts) "v1 header missing protocol field")
          (λ (protocol, fields).
            (if bytes_eq protocol (85 ∷ 78 ∷ 75 ∷ 78 ∷ 79 ∷ 87 ∷ 78 ∷ [])
              then ok none
              else if not (bytes_eq protocol (84 ∷ 67 ∷ 80 ∷ 52 ∷ []))
                  && not (bytes_eq protocol (84 ∷ 67 ∷ 80 ∷ 54 ∷ []))
              then malformed "v1 header has an unsupported protocol"
              else v1_addresses fields))

  unfoldable pub read_v1 : List ℕ → Outcome (Option SocketAddr × List ℕ)
  unfolding read_line v1_fields
  read_v1 stream = and_then (read_line [] stream) (λ (line, rest).
      (if not (p.is_utf8 line)
        then malformed "v1 header is not valid utf-8"
        else and_then (v1_fields (trim_end line)) (λ address. ok (address, rest))))

  -- The first byte is looked at, not read.
  unfoldable pub read_header : List ℕ → Outcome (Option SocketAddr × List ℕ)
  unfolding read_v1 read_v2
  read_header [] = malformed "connection closed before any header"
  read_header (b ∷ stream) = if b == 13 then read_v2 (b ∷ stream) else read_v1 (b ∷ stream)
