-- ===== src/Base/Assoc.antt =====
-- `HashMap` as an association list. The list's order stands for the unspecified iteration order.
use mathlib.Core.Path.{◌≡◌, refl}
use mathlib.Core.Logic.{◌≢◌, ◌⊎◌, inl, inr}
use mathlib.Core.List.{List, [], ◌∷◌}
use mathlib.Core.Option
use mathlib.Core.Option.{Option, none, some}
use mathlib.Core.Bool.{Bool, true, false}
use native.Mathlib.Omega.{arith}
use ius.Base.Tests.{Eq, ◌==◌, if◌then◌else◌, Bool-cases, Option-cases}

abbrev pub Assoc {ℓ κ} : Type κ → Type ℓ → Type (ℓ ⊔ κ)
Assoc K V = List (K × V)

module _ {ℓ κ} {K : Type κ} {V : Type ℓ} ⦃e : Eq K⦄ where
  unfoldable pub lookup : K → Assoc K V → Option V
  lookup k [] = none
  lookup k ((j, v) ∷ m) = if j == k then some v else lookup k m

  unfoldable pub remove : K → Assoc K V → Assoc K V
  remove k [] = []
  remove k ((j, v) ∷ m) = let rest = remove k m in if j == k then rest else (j, v) ∷ rest

  unfoldable pub insert : K → V → Assoc K V → Assoc K V
  unfolding remove
  insert k v m = (k, v) ∷ remove k m

  -- A write through `get_mut`: the entry of `k` becomes `f` of it, a missing key stays missing.
  unfoldable pub adjust : K → (V → V) → Assoc K V → Assoc K V
  adjust k f [] = []
  adjust k f ((j, v) ∷ m) = (if j == k then (j, f v) else (j, v)) ∷ adjust k f m

  unfoldable pub contains_key : K → Assoc K V → Bool
  unfolding lookup
  contains_key k m = elim (lookup k m) [ none ↦ false | some _ ↦ true ]

  pub lookup-remove :
      (k j : K) (m : Assoc K V) → lookup j (remove k m) ≡ (if k == j then none else lookup j m)
  unfolding lookup remove
  lookup-remove k j [] = ground arith
  lookup-remove k j ((i, v) ∷ m) =
      ground (arith, lookup-remove k j m, e.same_iff i k, e.same_iff i j, e.same_iff k j)

  pub lookup-insert :
      (k j : K) (v : V) (m : Assoc K V)
      → lookup j (insert k v m) ≡ (if k == j then some v else lookup j m)
  unfolding lookup insert
  lookup-insert k j v m = ground (arith, lookup-remove k j m)

  pub lookup-adjust :
      (k j : K) (f : V → V) (m : Assoc K V)
      → lookup j (adjust k f m) ≡ (if k == j then Option.map f (lookup j m) else lookup j m)
  unfolding lookup adjust
  lookup-adjust k j f [] = ground arith
  lookup-adjust k j f ((i, v) ∷ m) =
      ground (arith, lookup-adjust k j f m, e.same_iff i k, e.same_iff i j, e.same_iff k j)

  -- No key twice: what a `HashMap` gives. All operations keep it.
  abbrev pub IsMap : Assoc K V → Type ℓ
  IsMap [] = Unit {ℓ}
  IsMap ((k, v) ∷ m) = (lookup k m ≡ none) × IsMap m

  pub remove-IsMap : (k : K) (m : Assoc K V) → IsMap m → IsMap (remove k m)
  unfolding remove
  remove-IsMap k [] h = tt
  remove-IsMap k ((j, v) ∷ m) (fresh, h) = ground (arith, remove-IsMap k m h, lookup-remove k j m)

  pub insert-IsMap : (k : K) (v : V) (m : Assoc K V) → IsMap m → IsMap (insert k v m)
  unfolding insert
  insert-IsMap k v m h = (rw (lookup-remove k k m, (e.same_iff k k).1 refl), remove-IsMap k m h)

  pub adjust-IsMap : (k : K) (f : V → V) (m : Assoc K V) → IsMap m → IsMap (adjust k f m)
  unfolding adjust
  adjust-IsMap k f [] h = tt
  adjust-IsMap k f ((j, v) ∷ m) (fresh, h) =
      ground (arith, adjust-IsMap k f m h, lookup-adjust k j f m)

  pub lookup-insert_cases :
      (k j : K) (v w : V) (m : Assoc K V)
      → lookup j (insert k v m) ≡ some w
      → ((j ≡ k) × (w ≡ v)) ⊎ (lookup j m ≡ some w)
  lookup-insert_cases k j v w m h = ground (arith, lookup-insert k j v m, e.same_iff k j)

  pub lookup-adjust_cases :
      (k j : K) (v w : V) (m : Assoc K V)
      → lookup j (adjust k (λ _. v) m) ≡ some w
      → ((j ≡ k) × (w ≡ v)) ⊎ (lookup j m ≡ some w)
  lookup-adjust_cases k j v w m h = ground (arith, lookup-adjust k j (λ _. v) m, e.same_iff k j)

  pub lookup-remove_cases :
      (k j : K) (w : V) (m : Assoc K V)
      → lookup j (remove k m) ≡ some w
      → (j ≢ k) × (lookup j m ≡ some w)
  lookup-remove_cases k j w m h = ground (arith, lookup-remove k j m, e.same_iff k j)

  pub lookup-adjust-some :
      (k j : K) (f : V → V) (w : V) (m : Assoc K V)
      → lookup j (adjust k f m) ≡ some w
      → ((j ≡ k) × (v : V) × (lookup k m ≡ some v) × (w ≡ f v)) ⊎ (lookup j m ≡ some w)
  lookup-adjust-some k j f w m h = elim (Bool-cases (k == j)) [
    | inr apart ↦ inr (ground (arith, lookup-adjust k j f m))
    | inl same ↦ elim (Option-cases (lookup j m)) [
      | inl missing ↦ ground (arith, lookup-adjust k j f m)
      | inr (v, found) ↦ inl (
        ground (arith, e.same_iff k j),
        v,
        ground (arith, e.same_iff k j),
        ground (arith, lookup-adjust k j f m),
      )
    ]
  ]
