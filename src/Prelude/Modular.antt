-- ===== src/Prelude/Modular.antt =====
-- Remainders: every residue is reached within one turn; and counting the numbers below a bound that
-- pass a test.
use Prim.Native.Nat.{ℕ, zero, suc, ◌+◌, ◌-◌, ◌%◌, ◌≤◌, ◌<◌}
use mathlib.Core.Path.{◌≡◌, refl, sym, ap, ◌∙◌}
use mathlib.Core.Bool.{Bool}
use native.Mathlib.Omega.{arith}
use native.Mathlib.Nat.{mod-add-mod, mod-eq_of_lt, add-mod_right, mod-lt, add-zero, add-suc}
use native.Mathlib.Decide.{dec_lt}
use distributed_load_balance.Prelude.Tests.{if◌then◌else◌}

pub residue_reached : (c i n : ℕ) → i < n → (k : ℕ) × (k < n) × ((c + k) % n ≡ i)
residue_reached c i n h = elim (dec_lt i (c % n)) [
  | yes below ↦ (
    i + n - c % n,
    omega (arith, mod-lt c {m = n}),
    rw (← mod-add-mod c n (i + n - c % n)) (
        rw (around (c % n) i n (omega (arith, mod-lt c {m = n})))
          (add-mod_right i n ∙ mod-eq_of_lt h)),
  )
  | no above ↦ (
    i - c % n,
    omega arith,
    rw (← mod-add-mod c n (i - c % n)) (rw (along (c % n) i (omega arith)) (mod-eq_of_lt h)),
  )
]
  where
    around : (r i n : ℕ) → r ≤ i + n → r + (i + n - r) ≡ i + n
    around r i n h = omega arith

    along : (r i : ℕ) → r ≤ i → r + (i - r) ≡ i
    along r i h = omega arith

-- How many numbers below the bound pass.
abbrev pub hits : ℕ → (ℕ → Bool) → ℕ
hits zero p = 0
hits (suc n) p = (if p n then 1 else 0) + hits n p

pub hits-add : (m n : ℕ) (p : ℕ → Bool) → hits (m + n) p ≡ hits m p + hits n (λ k. p (m + k))
hits-add m zero p = rw (add-zero, add-zero) refl
hits-add m (suc n) p = rw add-suc (omega (arith, hits-add m n p))

pub hits_ext : (n : ℕ) (p q : ℕ → Bool) → ((k : ℕ) → k < n → p k ≡ q k) → hits n p ≡ hits n q
hits_ext zero p q h = refl
hits_ext (suc n) p q h = ground (arith, h n, hits_ext n p q (λ k l. h k (omega arith)))

pub hits_const : (n : ℕ) (b : Bool) → hits n (λ k. b) ≡ (if b then n else 0)
hits_const zero b = ground arith
hits_const (suc n) b = ground (arith, hits_const n b)

pub hits_front :
    (n : ℕ) (p : ℕ → Bool) → hits (suc n) p ≡ (if p 0 then 1 else 0) + hits n (λ k. p (suc k))
hits_front zero p = refl
hits_front (suc n) p = omega (arith, hits_front n p)

hits_slide :
    (n c : ℕ) (p : ℕ → Bool) → hits n (λ k. p ((suc c + k) % n)) ≡ hits n (λ k. p ((c + k) % n))
hits_slide n c p =
    let f = λ (k : ℕ). p ((c + k) % n) in
    let moved =
      hits_ext n (λ k. p ((suc c + k) % n)) (λ k. f (suc k))
        (λ k l. ap (λ x. p (x % n)) (carry c k)) in
    let wraps : p ((c + n) % n) ≡ p ((c + 0) % n) =
      ap p (add-mod_right c n ∙ ap (λ x. x % n) (sym (add-zero c))) in
    omega (arith, hits_front n f, moved, ap {B = ℕ} (λ b. if b then 1 else 0) wraps)
  where
    carry : (c k : ℕ) → suc c + k ≡ c + suc k
    carry c k = omega arith

-- In any run of `n` numbers as many residues pass as below `n`.
pub hits_turn : (n c : ℕ) (p : ℕ → Bool) → hits n (λ k. p ((c + k) % n)) ≡ hits n p
hits_turn n zero p = hits_ext n _ p (λ k l. ap p (from_zero k l))
  where
    from_zero : (k : ℕ) → k < n → (0 + k) % n ≡ k
    from_zero k l = grind arith
hits_turn n (suc c) p = hits_slide n c p ∙ hits_turn n c p
