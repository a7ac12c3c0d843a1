-- ===== src/Js/Pattern.antt =====
-- `/words/i.test(text)` of a pattern that is a plain lower-case text.
use mortstack.Prelude.{
  ℕ, ◌+◌, String, Bool, true, false, ◌&&◌, ◌||◌, List, [], ◌∷◌, leb, nat_eq, if◌then◌else◌,
}
use mortstack.Js.Text.{codes}

abbrev lower : ℕ → ℕ
lower c = if leb b'A' c && leb c b'Z' then c + 32 else c

starts_with : List ℕ → List ℕ → Bool
starts_with [] cs = true
starts_with (p ∷ ps) [] = false
starts_with (p ∷ ps) (c ∷ cs) = nat_eq p (lower c) && starts_with ps cs

contains : List ℕ → List ℕ → Bool
unfolding starts_with
contains p [] = starts_with p []
contains p (c ∷ cs) = starts_with p (c ∷ cs) || contains p cs

unfoldable pub mentions : String → String → Bool
unfolding contains
mentions words text = contains (codes words) (codes text)

is_prefix : List ℕ → List ℕ → Bool
is_prefix [] cs = true
is_prefix (p ∷ ps) [] = false
is_prefix (p ∷ ps) (c ∷ cs) = nat_eq p c && is_prefix ps cs

is_infix : List ℕ → List ℕ → Bool
unfolding is_prefix
is_infix p [] = is_prefix p []
is_infix p (c ∷ cs) = is_prefix p (c ∷ cs) || is_infix p cs

-- `s.includes(part)` of a string
unfoldable pub includes : String → String → Bool
unfolding is_infix
includes s part = is_infix (codes part) (codes s)

is_word : List ℕ → List ℕ → Bool
is_word [] [] = true
is_word (p ∷ ps) (c ∷ cs) = nat_eq p (lower c) && is_word ps cs
is_word _ _ = false

-- `text.toLowerCase() === word` of a word without a letter that some other character lowers to
unfoldable pub lowers_to : String → String → Bool
unfolding is_word
lowers_to word text = is_word (codes word) (codes text)
