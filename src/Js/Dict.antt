-- ===== src/Js/Dict.antt =====
-- `Map<string, V>`: the entries in the order of their first insertion.
use mortstack.Prelude.{
  String, ◌≡◌, refl, Bool, true, false, ◌==◌, eq_iff, Option, none, some, List, [], ◌∷◌, arith,
  if◌then◌else◌,
}

abbrev pub Dict {ℓ} : Type ℓ → Type ℓ
Dict V = List (String × V)

module _ {ℓ} {V : Type ℓ} where
  -- `m.get(k)`
  unfoldable pub get : Dict V → String → Option V
  get [] k = none
  get ((j, v) ∷ m) k = if j == k then some v else get m k

  -- `m.has(k)`
  unfoldable pub has : Dict V → String → Bool
  has [] k = false
  has ((j, v) ∷ m) k = if j == k then true else has m k

  -- `m.set(k, v)`: an entry that is there keeps its place
  unfoldable pub put : String → V → Dict V → Dict V
  put k v [] = (k, v) ∷ []
  put k v ((j, w) ∷ m) = if j == k then (k, v) ∷ m else (j, w) ∷ put k v m

  -- `m.delete(k)`
  unfoldable pub remove : String → Dict V → Dict V
  remove k [] = []
  remove k ((j, v) ∷ m) = let rest = remove k m in if j == k then rest else (j, v) ∷ rest

  -- `m.get(k) ?? d`
  abbrev pub get_or : Dict V → String → V → V
  get_or m k d = elim (get m k) [ none ↦ d | some v ↦ v ]

  pub get-put :
      (k j : String) (v : V) (m : Dict V) → get (put k v m) j ≡ (if k == j then some v else get m j)
  unfolding get put
  get-put k j v [] = refl
  get-put k j v ((i, w) ∷ m) = ground (arith, eq_iff k j, eq_iff i k, eq_iff i j, get-put k j v m)

  pub get-remove :
      (k j : String) (m : Dict V) → get (remove k m) j ≡ (if k == j then none else get m j)
  unfolding get remove
  get-remove k j [] = ground arith
  get-remove k j ((i, w) ∷ m) = ground (arith, eq_iff k j, eq_iff i k, eq_iff i j, get-remove k j m)

  pub ruleset dict_laws = (get-put, get-remove)
