-- ===== src/Js/BigInt.antt =====
-- `BigInt(text)` and `n.toString()`, by JavaScript's rules: outer white space is dropped, nothing
-- left is 0, then `0x`, `0o`, `0b` with digits, or decimal digits with an optional sign. `none`
-- is the SyntaxError that the conversion throws.
pub mod RoundTrip
use Prim.Native.String
use mathlib.Core.Option
use mortstack.Prelude.{
  ℕ, suc, ◌+◌, ◌-◌, ◌*◌, String, ◌≡◌, refl, Bool, ◌&&◌, ◌||◌, Option, none, some, List, [], ◌∷◌,
  reverse, ℤ, pos, negsuc, ltb, leb, nat_eq, sub_ℕ, if◌then◌else◌,
}
use mortstack.Js.Text.{codes, is_digit, print_nat}

abbrev is_space : ℕ → Bool
is_space c =
    (leb 9 c && leb c 13)
    || nat_eq c 32
    || nat_eq c 160
    || nat_eq c 5760
    || (leb 8192 c && leb c 8202)
    || nat_eq c 8232
    || nat_eq c 8233
    || nat_eq c 8239
    || nat_eq c 8287
    || nat_eq c 12288
    || nat_eq c 65279

drop_space : List ℕ → List ℕ
drop_space [] = []
drop_space (c ∷ cs) = let rest = drop_space cs in if is_space c then rest else c ∷ cs

trim : List ℕ → List ℕ
unfolding drop_space
trim cs = reverse (drop_space (reverse (drop_space cs)))

-- The value of one digit, 0 to 35.
abbrev digit_value : ℕ → Option ℕ
digit_value c =
    if is_digit c
    then some (c - b'0')
    else if leb b'a' c && leb c b'z'
    then some (c - b'a' + 10)
    else if leb b'A' c && leb c b'Z'
    then some (c - b'A' + 10)
    else none

read_digits : ℕ → ℕ → List ℕ → Option ℕ
read_digits base acc [] = some acc
read_digits base acc (c ∷ cs) = elim (digit_value c) [
  | none ↦ none
  | some d ↦ if ltb d base then read_digits base (acc * base + d) cs else none
]

read_natural : ℕ → List ℕ → Option ℕ
unfolding read_digits
read_natural base [] = none
read_natural base (c ∷ cs) = read_digits base 0 (c ∷ cs)

read_signed : ℕ → List ℕ → Option ℤ
unfolding read_natural
read_signed c cs =
    if nat_eq c b'-'
    then Option.map (λ n. sub_ℕ 0 n) (read_natural 10 cs)
    else if nat_eq c b'+'
    then Option.map pos (read_natural 10 cs)
    else Option.map pos (read_natural 10 (c ∷ cs))

read_literal : List ℕ → Option ℤ
unfolding read_signed
read_literal [] = some (pos 0)
read_literal (c ∷ []) = read_signed c []
read_literal (c ∷ p ∷ cs) =
    if nat_eq c b'0' && (nat_eq p b'x' || nat_eq p b'X')
    then Option.map pos (read_natural 16 cs)
    else if nat_eq c b'0' && (nat_eq p b'o' || nat_eq p b'O')
    then Option.map pos (read_natural 8 cs)
    else if nat_eq c b'0' && (nat_eq p b'b' || nat_eq p b'B')
    then Option.map pos (read_natural 2 cs)
    else read_signed c (p ∷ cs)

-- `BigInt(text)`
unfoldable pub big_int : String → Option ℤ
unfolding trim read_literal
big_int s = read_literal (trim (codes s))

-- `n.toString()`
unfoldable pub print_int : ℤ → String
unfolding print_nat
print_int (pos n) = print_nat n
print_int (negsuc n) = String.◌∷◌ "-" (print_nat (suc n))

big_int_samples :
    (big_int " 12\n" ≡ some (pos 12))
    × (big_int "-7" ≡ some (negsuc 6))
    × (big_int "0x1F" ≡ some (pos 31))
    × (big_int "" ≡ some (pos 0))
    × (big_int "1.5" ≡ none)
    × (big_int "-" ≡ none)
unfolding big_int
big_int_samples = (refl, refl, refl, refl, refl, refl)
