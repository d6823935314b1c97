-- ===== src/Examples/Ingress.antt =====
-- A header for 10.0.0.1, port 8080.
use distributed_load_balance.Prelude.{◌≡◌, [], ◌∷◌, ◌++◌, true, some, arith}
use distributed_load_balance.Pool.Backend.{v4}
use distributed_load_balance.Ingress.ProxyProtocol.{ok, Parsers, read_header}
use distributed_load_balance.Ingress.Header.{v4_header, read_header-v4_header}

abbrev parsers : Parsers
parsers = record { is_utf8 = λ bs. true; parse_ip = λ bs. some (v4 bs); parse_port = λ bs. some 80 }

-- With a field of three bytes and no data, type 4.
read_header-v4_header_example :
    read_header parsers (
      v4_header (10 ∷ 0 ∷ 0 ∷ 1 ∷ []) (10 ∷ 0 ∷ 0 ∷ 2 ∷ []) 8080 (1 ∷ 187 ∷ []) (4 ∷ 0 ∷ 0 ∷ [])
      ++ 71 ∷ 69 ∷ [])
    ≡ ok (
      some (record { ip = v4 (10 ∷ 0 ∷ 0 ∷ 1 ∷ []); port = 8080; flowinfo = 0; scope_id = 0 }),
      71 ∷ 69 ∷ [],
    )
read_header-v4_header_example =
    read_header-v4_header parsers 10 0 0 1 10 0 0 2 8080 1 187 (4 ∷ 0 ∷ 0 ∷ []) (71 ∷ 69 ∷ [])
      (omega arith)
