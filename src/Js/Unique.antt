-- ===== src/Js/Unique.antt =====
-- `Set<string>`: the members in the order of their first insertion.
use mortstack.Prelude.{
  String, ◌≡◌, refl, Bool, true, false, ◌&&◌, ◌||◌, not, ◌==◌, eq_iff, List, [], ◌∷◌, ◌++◌, arith,
  if◌then◌else◌,
}

-- `s.has(x)`, and `xs.includes(x)` of an array
unfoldable pub member : List String → String → Bool
member [] x = false
member (y ∷ ys) x = if y == x then true else member ys x

-- `s.add(x)`
unfoldable pub add : String → List String → List String
unfolding member
add x s = if member s x then s else s ++ x ∷ []

-- `s.delete(x)`
unfoldable pub delete : String → List String → List String
delete x [] = []
delete x (y ∷ ys) = let rest = delete x ys in if y == x then rest else y ∷ rest

add_all : List String → List String → List String
unfolding add
add_all s [] = s
add_all s (x ∷ xs) = add_all (add x s) xs

-- `new Set(xs)`
unfoldable pub of_array : List String → List String
unfolding add_all
of_array xs = add_all [] xs

pub member-append :
    (xs ys : List String) (x : String) → member (xs ++ ys) x ≡ (member xs x || member ys x)
unfolding member
member-append [] ys x = refl
member-append (y ∷ xs) ys x = ground (arith, member-append xs ys x)

pub member-add : (x y : String) (s : List String) → member (add x s) y ≡ (x == y || member s y)
unfolding add member
member-add x y s = ground (arith, member-append s (x ∷ []) y, eq_iff x y)

pub member-delete :
    (x y : String) (s : List String) → member (delete x s) y ≡ (not (x == y) && member s y)
unfolding delete member
member-delete x y [] = ground arith
member-delete x y (z ∷ s) = ground (arith, member-delete x y s, eq_iff x y, eq_iff z x, eq_iff z y)

member-add_all :
    (s xs : List String) (y : String) → member (add_all s xs) y ≡ (member s y || member xs y)
unfolding add_all member
member-add_all s [] y = ground arith
member-add_all s (x ∷ xs) y = ground (arith, member-add x y s, member-add_all (add x s) xs y)

pub member-of_array : (xs : List String) (y : String) → member (of_array xs) y ≡ member xs y
unfolding of_array member
member-of_array xs y = member-add_all [] xs y
