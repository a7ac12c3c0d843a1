-- ===== src/Js/BigInt/RoundTrip.antt =====
-- Decimal texts read back as the number they print.
use mathlib.Core.List.{reverse-cons, reverse-reverse}
use mortstack.Prelude.{
  ℕ, ◌*◌, ◌+◌, ◌-◌, String, ◌≡◌, refl, ap, ◌∙◌, some, List, [], ◌∷◌, reverse, pos, ℤ, negsuc, suc,
  true, false, arith, All, All-append,
}
use mortstack.Js.Text.{
  codes, is_digit, AllDigits, decimal, print_nat, decimal-print_nat, print_nat-AllDigits,
}
use mortstack.Js.BigInt.{
  is_space, drop_space, trim, read_digits, read_natural, read_literal, big_int, print_int,
}

abbrev IsSolid : List ℕ → Type 0
IsSolid = All (λ c. is_space c ≡ false)

drop_space_of_IsSolid : (cs : List ℕ) → IsSolid cs → drop_space cs ≡ cs
unfolding drop_space
drop_space_of_IsSolid [] h = refl
drop_space_of_IsSolid (c ∷ cs) h = rw h.0

IsSolid-reverse : (cs : List ℕ) → IsSolid cs → IsSolid (reverse cs)
IsSolid-reverse [] h = tt
IsSolid-reverse (c ∷ cs) h = rw (reverse-cons c cs) (
    All-append (λ (x : ℕ). is_space x ≡ false) (reverse cs) (c ∷ []) (IsSolid-reverse cs h.1)
      (h.0, tt))

trim_of_IsSolid : (cs : List ℕ) → IsSolid cs → trim cs ≡ cs
unfolding trim
trim_of_IsSolid cs h =
    rw (drop_space_of_IsSolid cs h, drop_space_of_IsSolid (reverse cs) (IsSolid-reverse cs h))
      (reverse-reverse cs)

digit_solid : (c : ℕ) → is_digit c ≡ true → is_space c ≡ false
digit_solid c h = ground arith

IsSolid-of_AllDigits : (cs : List ℕ) → AllDigits cs → IsSolid cs
IsSolid-of_AllDigits [] h = tt
IsSolid-of_AllDigits (c ∷ cs) h = (digit_solid c h.0, IsSolid-of_AllDigits cs h.1)

read_digits_of_AllDigits :
    (acc : ℕ) (cs : List ℕ) → AllDigits cs → read_digits 10 acc cs ≡ some (decimal acc cs)
unfolding read_digits
read_digits_of_AllDigits acc [] h = refl
read_digits_of_AllDigits acc (c ∷ cs) h =
    ground (arith, read_digits_of_AllDigits (acc * 10 + (c - b'0')) cs)

read_literal_of_AllDigits :
    (cs : List ℕ) → AllDigits cs → read_literal cs ≡ some (pos (decimal 0 cs))
unfolding read_literal read_natural
read_literal_of_AllDigits [] h = refl
read_literal_of_AllDigits (c ∷ []) h = ground (arith, read_digits_of_AllDigits 0 (c ∷ []))
read_literal_of_AllDigits (c ∷ p ∷ cs) h = ground (arith, read_digits_of_AllDigits 0 (c ∷ p ∷ cs))

-- A text of decimal digits is read as its value.
pub big_int_of_AllDigits :
    (s : String) → AllDigits (codes s) → big_int s ≡ some (pos (decimal 0 (codes s)))
unfolding big_int
big_int_of_AllDigits s h =
    rw (trim_of_IsSolid (codes s) (IsSolid-of_AllDigits (codes s) h))
      (read_literal_of_AllDigits (codes s) h)

pub big_int-print_nat : (n : ℕ) → big_int (print_nat n) ≡ some (pos n)
big_int-print_nat n =
    big_int_of_AllDigits (print_nat n) (print_nat-AllDigits n)
    ∙ ap (λ (k : ℕ). some (pos k)) (decimal-print_nat n)

read_literal-minus :
    (n : ℕ) (cs : List ℕ)
    → AllDigits cs
    → decimal 0 cs ≡ suc n
    → read_literal (b'-' ∷ cs) ≡ some (negsuc n)
unfolding read_literal read_natural
read_literal-minus n [] h e = absurd (omega arith)
read_literal-minus n (c ∷ cs) h e = ground (arith, read_digits_of_AllDigits 0 (c ∷ cs))

-- `BigInt(n.toString())` is `n`.
pub big_int-print_int : (z : ℤ) → big_int (print_int z) ≡ some z
unfolding print_int
big_int-print_int (pos n) = big_int-print_nat n
big_int-print_int (negsuc n) =
    unfold big_int in
    (rw
      (trim_of_IsSolid (b'-' ∷ codes (print_nat (suc n)))
        (refl, IsSolid-of_AllDigits _ (print_nat-AllDigits (suc n))))
      (read_literal-minus n _ (print_nat-AllDigits (suc n)) (decimal-print_nat (suc n))))

-- So distinct serials print differently.
pub print_int_inj : (a b : ℤ) → print_int a ≡ print_int b → a ≡ b
print_int_inj a b e = cc (ap big_int e, big_int-print_int a, big_int-print_int b)
