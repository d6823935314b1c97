-- ===== src/Http/Sticky.antt =====
-- crates/lb-proxy/src/sticky.rs: the backend that a request names in its cookies. A header is the list
-- of its bytes.
use distributed_load_balance.Prelude.{
  ℕ, Bool, true, false, ◌||◌, ◌&&◌, List, [], ◌∷◌, ◌++◌, Option, none, some, is_empty,
  if◌then◌else◌, ◌==◌, nat_eq,
}
use distributed_load_balance.Http.Percent.{Text, percent_encode, percent_decode}

abbrev pub semicolon : ℕ
semicolon = 59

abbrev pub equals_sign : ℕ
equals_sign = 61

-- The white space of visible ASCII.
abbrev pub is_space : ℕ → Bool
is_space b = b == 32 || b == 9

abbrev pub cons_first : ℕ → List (List ℕ) → List (List ℕ)
cons_first b [] = (b ∷ []) ∷ []
cons_first b (s ∷ ss) = (b ∷ s) ∷ ss

-- `str::split`.
abbrev pub split : ℕ → List ℕ → List (List ℕ)
split sep [] = [] ∷ []
split sep (b ∷ bs) = if b == sep then [] ∷ split sep bs else cons_first b (split sep bs)

-- `str::split_once`.
abbrev pub split_once : ℕ → List ℕ → Option (List ℕ × List ℕ)
split_once sep [] = none
split_once sep (b ∷ bs) =
    if b == sep
    then some ([], bs)
    else elim (split_once sep bs) [ none ↦ none | some p ↦ some (b ∷ p.0, p.1) ]

abbrev pub trim_start : List ℕ → List ℕ
trim_start [] = []
trim_start (b ∷ bs) = if is_space b then trim_start bs else b ∷ bs

abbrev pub trim_end : List ℕ → List ℕ
trim_end [] = []
trim_end (b ∷ bs) = if is_space b && is_empty (trim_end bs) then [] else b ∷ trim_end bs

abbrev pub trim : List ℕ → List ℕ
trim bs = trim_end (trim_start bs)

abbrev pub bytes_eq : List ℕ → List ℕ → Bool
bytes_eq [] [] = true
bytes_eq (a ∷ as') (b ∷ bs) = a == b && bytes_eq as' bs
bytes_eq _ _ = false

-- One round of the loop over the pairs, with what the others give.
abbrev pub value_or : Text → List ℕ → Option (List ℕ × List ℕ) → Option (List ℕ) → Option (List ℕ)
value_or text cookie_name none others = others
value_or text cookie_name (some p) others =
    if bytes_eq (trim p.0) cookie_name then some (percent_decode text (trim p.1)) else others

unfoldable pub find_pair : Text → List ℕ → List (List ℕ) → Option (List ℕ)
find_pair text cookie_name [] = none
find_pair text cookie_name (pair ∷ pairs) =
    value_or text cookie_name (split_once equals_sign (trim pair))
      (find_pair text cookie_name pairs)

-- The values of the request's cookie headers, of which `get` takes the first.
unfoldable pub read_sticky_backend : Text → List (List ℕ) → List ℕ → Option (List ℕ)
unfolding find_pair
read_sticky_backend text [] cookie_name = none
read_sticky_backend text (value ∷ values) cookie_name = elim (text.to_str value) [
  | none ↦ none
  | some raw ↦ find_pair text cookie_name (split semicolon raw)
]

-- The pair that `set_cookie_header` writes and a client sends back.
unfoldable pub cookie_pair : List ℕ → List ℕ → List ℕ
cookie_pair cookie_name backend_id = cookie_name ++ equals_sign ∷ percent_encode backend_id
