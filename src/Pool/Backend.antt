-- ===== src/Pool/Backend.antt =====
-- crates/lb-core/src/backend.rs: a backend and its equality, with the addresses of the standard
-- library that it holds.
use distributed_load_balance.Prelude.{
  ℕ, Bool, true, false, ◌&&◌, List, [], ◌∷◌, Option, none, some, String, ◌==◌, nat_eq, string_eq,
  ◌≡◌, refl, ap, inl, inr, Bool-cases, arith,
}

pub data IpAddr : Type 0 where
  v4 v6 : List ℕ → IpAddr

-- The last two are zero but for an address of version 6.
pub record SocketAddr : Type 0 where
  pub ip : IpAddr
  pub port : ℕ
  pub flowinfo : ℕ
  pub scope_id : ℕ

pub record Backend : Type 0 where
  pub id : String
  pub address : SocketAddr
  pub weight : ℕ
  pub server_name : Option String
  pub priority : ℕ

unfoldable pub new : String → SocketAddr → ℕ → Option String → Backend
new id address weight server_name = record {
  id = id;
  address = address;
  weight = weight;
  server_name = server_name;
  priority = 0;
}

unfoldable pub with_priority : Backend → ℕ → Backend
with_priority b priority = record b { priority = priority }

abbrev octets_eq : List ℕ → List ℕ → Bool
octets_eq [] [] = true
octets_eq (a ∷ as') (b ∷ bs) = a == b && octets_eq as' bs
octets_eq _ _ = false

abbrev ip_eq : IpAddr → IpAddr → Bool
ip_eq (v4 a) (v4 b) = octets_eq a b
ip_eq (v6 a) (v6 b) = octets_eq a b
ip_eq _ _ = false

abbrev name_eq : Option String → Option String → Bool
name_eq none none = true
name_eq (some a) (some b) = a == b
name_eq _ _ = false

-- The derived `PartialEq`.
unfoldable pub backend_eq : Backend → Backend → Bool
backend_eq a b =
    a.id == b.id
    && ip_eq a.address.ip b.address.ip
    && a.address.port == b.address.port
    && a.address.flowinfo == b.address.flowinfo
    && a.address.scope_id == b.address.scope_id
    && a.weight == b.weight
    && name_eq a.server_name b.server_name
    && a.priority == b.priority

octets_eq_lem : (xs ys : List ℕ) → octets_eq xs ys ≡ true → xs ≡ ys
octets_eq_lem [] [] h = refl
octets_eq_lem [] (y ∷ ys) h = cc h
octets_eq_lem (x ∷ xs) [] h = cc h
octets_eq_lem (x ∷ xs) (y ∷ ys) h = elim (Bool-cases (x == y)) [
  | inl e ↦
      let rest : octets_eq xs ys ≡ true = rw e at h in
      cc ((nat_eq.same_iff x y).0 e, octets_eq_lem xs ys rest)
  | inr e ↦ (let stop : false ≡ true = rw e at h in cc stop)
]

ip_eq_lem : (a b : IpAddr) → ip_eq a b ≡ true → a ≡ b
ip_eq_lem (v4 xs) (v4 ys) h = ap v4 (octets_eq_lem xs ys h)
ip_eq_lem (v6 xs) (v6 ys) h = ap v6 (octets_eq_lem xs ys h)
ip_eq_lem (v4 xs) (v6 ys) h = cc h
ip_eq_lem (v6 xs) (v4 ys) h = cc h

name_eq_lem : (a b : Option String) → name_eq a b ≡ true → a ≡ b
name_eq_lem none none h = refl
name_eq_lem (some a) (some b) h = ap some ((string_eq.same_iff a b).0 h)
name_eq_lem none (some b) h = cc h
name_eq_lem (some a) none h = cc h

-- Backends that compare as equal are the same.
pub backend_eq_lem : (a b : Backend) → backend_eq a b ≡ true → a ≡ b
unfolding backend_eq
backend_eq_lem a b h = ground (
  arith,
  h,
  ip_eq_lem a.address.ip b.address.ip,
  name_eq_lem a.server_name b.server_name,
  string_eq.same_iff a.id b.id,
)
