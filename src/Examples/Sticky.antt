-- ===== src/Examples/Sticky.antt =====
-- The cookie `lb` of the backend `a b`, behind another cookie.
use distributed_load_balance.Prelude.{
  ℕ, ◌≡◌, refl, List, [], ◌∷◌, ◌++◌, none, some, arith, Bool, true, ◌&&◌, All, ltb, if◌then◌else◌,
}
use distributed_load_balance.Http.Percent.{Text, is_visible}
use distributed_load_balance.Http.Sticky.{find_pair, read_sticky_backend, cookie_pair}
use distributed_load_balance.Http.Cookie.{join, read_sticky_backend-cookie_pair}

abbrev name : List ℕ
name = 108 ∷ 98 ∷ []

abbrev backend_id : List ℕ
backend_id = 97 ∷ 32 ∷ 98 ∷ []

-- `x=1`
abbrev other : List ℕ
other = 120 ∷ 61 ∷ 49 ∷ []

abbrev all_visible : List ℕ → Bool
all_visible [] = true
all_visible (b ∷ bs) = is_visible b && all_visible bs

all_visible_lem : (bs : List ℕ) → All (λ b. is_visible b ≡ true) bs → all_visible bs ≡ true
all_visible_lem [] h = refl
all_visible_lem (b ∷ bs) h = rw (h.0, all_visible_lem bs h.1) refl

abbrev ascii : List ℕ → Bool
ascii [] = true
ascii (b ∷ bs) = ltb b 128 && ascii bs

-- Text that is ASCII, and nothing else.
abbrev text : Text
text = record {
  to_str = λ bs. if all_visible bs then some bs else none;
  is_utf8 = ascii;
  from_utf8_lossy = λ bs. [];
  to_str_visible = λ bs h. rw (all_visible_lem bs h) refl;
}

not_named : find_pair text name (other ∷ []) ≡ none
unfolding find_pair
not_named = refl

read_sticky_backend-cookie_pair_example :
    read_sticky_backend text
      (join (other ∷ [] ++ (32 ∷ cookie_pair name backend_id) ∷ []) ∷ other ∷ [])
      name
    ≡ some backend_id
read_sticky_backend-cookie_pair_example =
    read_sticky_backend-cookie_pair text name backend_id
      ((refl, (refl, tt)), (refl, (refl, tt)), (refl, (refl, tt)))
      (omega arith, (omega arith, (omega arith, tt))) refl other [] [] (other ∷ [])
      ((refl, (refl, (refl, tt))), tt) tt ((refl, (refl, (refl, tt))), tt) tt not_named
