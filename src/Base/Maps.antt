-- ===== src/Base/Maps.antt =====
-- `std::unordered_map` as an association list; no code here depends on its iteration order.
use mathlib.Core.Path.{◌≡◌, refl}
use mathlib.Core.Option.{Option, none, some}
use mathlib.Core.List.{List, [], ◌∷◌}
use native.Mathlib.Omega.{arith}
use my_bookstore.Base.Tests.{if◌then◌else◌, is_some}
use my_bookstore.Base.Equality.{Eq, ◌==◌}

abbrev pub Dict {ℓ κ} : Type ℓ → Type κ → Type (ℓ ⊔ κ)
Dict K V = List (K × V)

module _ {ℓ κ} {K : Type ℓ} {V : Type κ} ⦃test : Eq K⦄ where
  -- `m.find(key)`
  unfoldable pub lookup : K → Dict K V → Option V
  lookup key [] = none
  lookup key ((first, value) ∷ rest) = if first == key then some value else lookup key rest

  -- `m[key] = value`
  unfoldable pub insert : K → V → Dict K V → Dict K V
  insert key value [] = (key, value) ∷ []
  insert key value ((first, old) ∷ rest) =
      if first == key then (first, value) ∷ rest else (first, old) ∷ insert key value rest

  -- `m.emplace(key, value)`: an old entry stays.
  unfoldable pub emplace : K → V → Dict K V → Dict K V
  emplace key value m = if is_some (lookup key m) then m else insert key value m

  pub lookup-insert :
      (key sought : K) (value : V) (m : Dict K V)
      → lookup sought (insert key value m) ≡ (if key == sought then some value else lookup sought m)
  unfolding lookup insert
  lookup-insert key sought value [] = refl
  lookup-insert key sought value ((first, old) ∷ rest) = ground (
    arith,
    test.same_iff first key,
    test.same_iff first sought,
    test.same_iff key sought,
    lookup-insert key sought value rest,
  )
