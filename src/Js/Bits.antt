-- ===== src/Js/Bits.antt =====
-- `a | b` and `a ^ b` of numbers that are not negative, bit by bit.
use mortstack.Prelude.{
  ℕ, zero, suc, ◌+◌, ◌/◌, ◌%◌, ◌<◌, ◌≡◌, refl, ◌↔◌, Bool, ◌&&◌, arith, nat_eq, if◌then◌else◌,
}

-- `2 ** n`
unfoldable pub power : ℕ → ℕ
power zero = 1
power (suc n) = let p = power n in p + p

-- the lowest `w` bits, each by `f`
bitwise : (ℕ → ℕ → Bool) → ℕ → ℕ → ℕ → ℕ
bitwise f zero a b = 0
bitwise f (suc w) a b =
    let rest = bitwise f w (a / 2) (b / 2) in (if f (a % 2) (b % 2) then 0 else 1) + (rest + rest)

abbrev both_zero : ℕ → ℕ → Bool
both_zero x y = nat_eq x 0 && nat_eq y 0

unfoldable pub bit_or : ℕ → ℕ → ℕ
unfolding bitwise
bit_or = bitwise both_zero 32

unfoldable pub bit_xor : ℕ → ℕ → ℕ
unfolding bitwise
bit_xor = bitwise nat_eq 32

bitwise-xor_zero : (w a b : ℕ) → a < power w → b < power w → (bitwise nat_eq w a b ≡ 0) ↔ (a ≡ b)
unfolding bitwise power
bitwise-xor_zero zero a b h k = (λ _. omega arith, λ _. refl)
bitwise-xor_zero (suc w) a b h k =
    let (there, back) = bitwise-xor_zero w (a / 2) (b / 2) (omega arith) (omega arith) in
    (λ e. ground (arith, there), λ e. ground (arith, back))

bitwise-or_zero :
    (w a b : ℕ) → a < power w → b < power w → (bitwise both_zero w a b ≡ 0) ↔ ((a ≡ 0) × (b ≡ 0))
unfolding bitwise power
bitwise-or_zero zero a b h k = (λ _. (omega arith, omega arith), λ _. refl)
bitwise-or_zero (suc w) a b h k =
    let (there, back) = bitwise-or_zero w (a / 2) (b / 2) (omega arith) (omega arith) in
    (λ e. (ground (arith, there), ground (arith, there)), λ e. ground (arith, back, e.0, e.1))

bitwise-bound : (f : ℕ → ℕ → Bool) (w a b : ℕ) → bitwise f w a b < power w
unfolding bitwise power
bitwise-bound f zero a b = omega arith
bitwise-bound f (suc w) a b = ground (arith, bitwise-bound f w (a / 2) (b / 2))

-- a number of 32 bits
abbrev pub IsWord : ℕ → Type 0
IsWord a = a < power 32

pub bit_xor_zero : (a b : ℕ) → IsWord a → IsWord b → (bit_xor a b ≡ 0) ↔ (a ≡ b)
unfolding bit_xor
bit_xor_zero = bitwise-xor_zero 32

pub bit_or_zero : (a b : ℕ) → IsWord a → IsWord b → (bit_or a b ≡ 0) ↔ ((a ≡ 0) × (b ≡ 0))
unfolding bit_or
bit_or_zero = bitwise-or_zero 32

pub bit_or-IsWord : (a b : ℕ) → IsWord (bit_or a b)
unfolding bit_or
bit_or-IsWord = bitwise-bound both_zero 32

pub bit_xor-IsWord : (a b : ℕ) → IsWord (bit_xor a b)
unfolding bit_xor
bit_xor-IsWord = bitwise-bound nat_eq 32
