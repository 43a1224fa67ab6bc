-- ===== src/Cpuset/Decimal.antt =====
-- cpu_bind.c: numbers that are printed by %d are read back.
use task_spooler_plus.Base.{
  ℕ, zero, suc, ◌+◌, ◌-◌, ◌*◌, ◌/◌, ◌%◌, ◌≤◌, ◌<◌, List, [], ◌∷◌, ◌++◌, true, false, ◌==◌, ◌≡◌,
  refl, ◌∙◌, ap, sym, subst, length, Bool-cases, inl, inr, arith,
}
use task_spooler_plus.Cpuset.{digits, decimal, is_digit, read_number}

-- A text that does not begin with a digit.
abbrev pub StopsHere : List ℕ → Type 0
StopsHere [] = Unit
StopsHere (c ∷ s) = is_digit c ≡ false

abbrev pub StartsDigit : List ℕ → Type 0
StartsDigit [] = ⊥
StartsDigit (c ∷ s) = is_digit c ≡ true

read_number-digit :
    (c : ℕ) (s : List ℕ) (n : ℕ)
    → is_digit c ≡ true
    → read_number (c ∷ s) n ≡ read_number s (n * 10 + (c - b'0'))
unfolding read_number
read_number-digit c s n e = rw (e, read_number)

digits-done : (fuel n : ℕ) (out : List ℕ) → (n == 0) ≡ true → digits (suc fuel) n out ≡ out
unfolding digits
digits-done fuel n out e = rw (e, digits)

digits-more :
    (fuel n : ℕ) (out : List ℕ)
    → (n == 0) ≡ false
    → digits (suc fuel) n out ≡ digits fuel (n / 10) ((b'0' + n % 10) ∷ out)
unfolding digits
digits-more fuel n out e = rw (e, digits)

decimal-zero : (n : ℕ) → (n == 0) ≡ true → decimal n ≡ b'0' ∷ []
unfolding decimal
decimal-zero n e = rw e

decimal-pos : (n : ℕ) → (n == 0) ≡ false → decimal n ≡ digits n n []
unfolding decimal
decimal-pos n e = rw e

read_number-digits :
    (fuel n : ℕ) (out s : List ℕ)
    → n ≤ fuel
    → read_number (digits fuel n out ++ s) 0 ≡ read_number (out ++ s) n
unfolding digits
read_number-digits zero n out s h = let e : n ≡ 0 = omega (arith, h) in rw e
read_number-digits (suc fuel) n out s h = elim (Bool-cases (n == 0)) [
  | inl e ↦
      let q : n ≡ 0 = ground arith in
      ap (λ x. read_number (x ++ s) 0) (digits-done fuel n out e) ∙ rw q
  | inr e ↦
      ap (λ x. read_number (x ++ s) 0) (digits-more fuel n out e)
      ∙ (read_number-digits fuel (n / 10) ((b'0' + n % 10) ∷ out) s (ground arith)
          ∙ read_number-digit (b'0' + n % 10) (out ++ s) (n / 10) (ground arith)
          ∙ ap (read_number (out ++ s)) (omega arith))
]

read_number-stop : (s : List ℕ) (n : ℕ) → StopsHere s → read_number s n ≡ (n, s)
unfolding read_number
read_number-stop [] n h = refl
read_number-stop (c ∷ s) n h = rw (h, read_number)

pub read_number-decimal :
    (n : ℕ) (s : List ℕ) → StopsHere s → read_number (decimal n ++ s) 0 ≡ (n, s)
unfolding decimal
read_number-decimal n s h = elim (Bool-cases (n == 0)) [
  | inl e ↦
      let q : n ≡ 0 = ground arith in
      rw e (read_number-digit b'0' s 0 refl ∙ read_number-stop s 0 h ∙ rw q)
  | inr e ↦ rw e (read_number-digits n n [] s (omega arith) ∙ read_number-stop s n h)
]

digits-StartsDigit :
    (fuel n : ℕ) (out : List ℕ)
    → n ≤ fuel
    → (n ≡ 0 → StartsDigit out)
    → StartsDigit (digits fuel n out)
unfolding digits
digits-StartsDigit zero n out h d = d (omega (arith, h))
digits-StartsDigit (suc fuel) n out h d = elim (Bool-cases (n == 0)) [
  | inl e ↦ subst StartsDigit (sym (digits-done fuel n out e)) (d (ground arith))
  | inr e ↦
      subst StartsDigit (sym (digits-more fuel n out e)) (
        digits-StartsDigit fuel (n / 10) ((b'0' + n % 10) ∷ out) (ground arith) (λ z. ground arith))
]

pub decimal-StartsDigit : (n : ℕ) → StartsDigit (decimal n)
decimal-StartsDigit n = elim (Bool-cases (n == 0)) [
  | inl e ↦ subst StartsDigit (sym (decimal-zero n e)) refl
  | inr e ↦
      subst StartsDigit (sym (decimal-pos n e))
        (digits-StartsDigit n n [] (omega arith) (λ z. ground arith))
]

unfoldable pub ten_to : ℕ → ℕ
ten_to zero = 1
ten_to (suc k) = 10 * ten_to k

length-digits :
    (k fuel n : ℕ) (out : List ℕ) → n < ten_to k → length (digits fuel n out) ≤ k + length out
unfolding digits ten_to
length-digits zero zero n out h = omega arith
length-digits zero (suc fuel) n out h =
    omega (arith, ap length (digits-done fuel n out (ground arith)))
length-digits (suc k) zero n out h = omega arith
length-digits (suc k) (suc fuel) n out h = elim (Bool-cases (n == 0)) [
  | inl e ↦ omega (arith, ap length (digits-done fuel n out e))
  | inr e ↦ omega (
    arith,
    ap length (digits-more fuel n out e),
    length-digits k fuel (n / 10) ((b'0' + n % 10) ∷ out) (omega (arith, h)),
  )
]

-- A number has at most as many digits as it is below a power of ten.
pub length-decimal : (k n : ℕ) → n < ten_to (suc k) → length (decimal n) ≤ suc k
length-decimal k n h = elim (Bool-cases (n == 0)) [
  | inl e ↦ omega (arith, ap length (decimal-zero n e))
  | inr e ↦ omega (arith, ap length (decimal-pos n e), length-digits (suc k) n n [] h)
]
