-- ===== src/Js/Text.antt =====
-- Texts as code points, and `n.toString()` of a non-negative number.
use Prim.Native.Char.{Char, code}
use Prim.Native.String.{char_at}
use mortstack.Prelude.{
  ℕ, zero, suc, ◌+◌, ◌-◌, ◌*◌, ◌/◌, ◌%◌, ◌<◌, String, ◌≡◌, refl, List, [], ◌∷◌, Bool, true, ◌&&◌,
  arith, ltb, leb, if◌then◌else◌,
}

-- `String` has its own `[]` and `∷`.
abbrev pub codes : String → List ℕ
codes String.[] = []
codes (String.◌∷◌ c s) = code c ∷ codes s

abbrev pub is_digit : ℕ → Bool
is_digit c = leb b'0' c && leb c b'9'

unfoldable pub digit : ℕ → Char
digit d = char_at "0123456789abcdef" d

print_from : ℕ → ℕ → String → String
print_from zero n acc = acc
print_from (suc fuel) n acc =
    let more = print_from fuel (n / 10) (String.◌∷◌ (digit (n % 10)) acc) in
    if ltb n 10 then String.◌∷◌ (digit n) acc else more

-- `n.toString()`
unfoldable pub print_nat : ℕ → String
unfolding print_from digit
print_nat n = print_from (suc n) n ""

-- `byte.toString(16).padStart(2, "0")`
unfoldable pub print_byte_hex : ℕ → String
unfolding digit
print_byte_hex b = String.◌∷◌ (digit (b / 16)) (String.◌∷◌ (digit (b % 16)) "")

-- The value of a list of decimal digits, read on from `acc`.
abbrev pub decimal : ℕ → List ℕ → ℕ
decimal acc [] = acc
decimal acc (c ∷ cs) = decimal (acc * 10 + (c - b'0')) cs

code-digit : (d : ℕ) → d < 10 → code (digit d) ≡ 48 + d
unfolding digit
code-digit zero h = refl
code-digit (suc zero) h = refl
code-digit (suc (suc zero)) h = refl
code-digit (suc (suc (suc zero))) h = refl
code-digit (suc (suc (suc (suc zero)))) h = refl
code-digit (suc (suc (suc (suc (suc zero))))) h = refl
code-digit (suc (suc (suc (suc (suc (suc zero)))))) h = refl
code-digit (suc (suc (suc (suc (suc (suc (suc zero))))))) h = refl
code-digit (suc (suc (suc (suc (suc (suc (suc (suc zero)))))))) h = refl
code-digit (suc (suc (suc (suc (suc (suc (suc (suc (suc zero))))))))) h = refl
code-digit (suc (suc (suc (suc (suc (suc (suc (suc (suc (suc n)))))))))) h = absurd (omega arith)

abbrev pub AllDigits : List ℕ → Type 0
AllDigits [] = Unit
AllDigits (c ∷ cs) = (is_digit c ≡ true) × AllDigits cs

decimal-print_from :
    (fuel n : ℕ) (acc : String)
    → n < fuel
    → decimal 0 (codes (print_from fuel n acc)) ≡ decimal n (codes acc)
unfolding print_from
decimal-print_from zero n acc h = elim h [ ]
decimal-print_from (suc fuel) n acc h = ground (
  arith,
  code-digit n,
  code-digit (n % 10),
  decimal-print_from fuel (n / 10) (String.◌∷◌ (digit (n % 10)) acc),
)

-- Printing gives at least one character, all of them digits.
print_from-AllDigits :
    (fuel n : ℕ) (acc : String)
    → n < fuel
    → AllDigits (codes acc)
    → AllDigits (codes (print_from fuel n acc))
unfolding print_from
print_from-AllDigits zero n acc h k = elim h [ ]
print_from-AllDigits (suc fuel) n acc h k = ground (
  arith,
  code-digit n,
  code-digit (n % 10),
  print_from-AllDigits fuel (n / 10) (String.◌∷◌ (digit (n % 10)) acc),
)

pub decimal-print_nat : (n : ℕ) → decimal 0 (codes (print_nat n)) ≡ n
unfolding print_nat
decimal-print_nat n = decimal-print_from (suc n) n "" (omega arith)

pub print_nat-AllDigits : (n : ℕ) → AllDigits (codes (print_nat n))
unfolding print_nat
print_nat-AllDigits n = print_from-AllDigits (suc n) n "" (omega arith) tt

print_samples : print_nat 9007199254740991 ≡ "9007199254740991"
unfolding print_nat
print_samples = refl

print_hex_sample : print_byte_hex 10 ≡ "0a"
unfolding print_byte_hex
print_hex_sample = refl
