-- ===== src/Agents/Context/Digits.antt =====
-- That the decimal notation of a number (src/sovereign_ai/agents/context.py) is given enough fuel.
use achilles.Prelude.{
  ℕ, zero, suc, ◌/◌, ◌%◌, ◌<◌, ◌≤◌, ◌≡◌, refl, ap, Bool-cases, inl, inr, ltb, arith, concat, String,
}
use achilles.Agents.Context.{decimal_of, decimal, digit}

-- Any two amounts of fuel above the number give the same digits.
decimal_of_enough : (f g n : ℕ) → n < f → n < g → decimal_of f n ≡ decimal_of g n
unfolding decimal_of
decimal_of_enough zero g n h k = absurd (omega (arith, h))
decimal_of_enough (suc f) zero n h k = absurd (omega (arith, k))
decimal_of_enough (suc f) (suc g) n h k = elim (Bool-cases (ltb n 10)) [
  | inl one ↦ rw one refl
  | inr more ↦
      let many : 10 ≤ n = ground (arith, more) in
      rw more (
        ap (λ (s : String). concat s (digit (n % 10)))
          (decimal_of_enough f g (n / 10) (omega (arith, many, h)) (omega (arith, many, k))))
]

-- A number's notation is complete: more fuel changes nothing.
pub decimal-decimal_of : (f n : ℕ) → n < f → decimal_of f n ≡ decimal n
decimal-decimal_of f n h = decimal_of_enough f (suc n) n h (omega arith)
