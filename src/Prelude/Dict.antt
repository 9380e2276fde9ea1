-- ===== src/Prelude/Dict.antt =====
-- A Python dict in insertion order.
use rra_module.Prelude.Tests.{if◌then◌else◌, Bool-cases}
use rra_module.Prelude.Classes.{Key, ◌==◌}
use mathlib.Core.Path.{◌≡◌, refl, sym, subst}
use mathlib.Core.Logic.{◌≢◌, inl, inr}
use mathlib.Core.Bool.{Bool, true, false}
use mathlib.Core.Option.{Option, none, some}
use mathlib.Core.List.{List, [], ◌∷◌}
use native.Mathlib.Omega.{arith}

abbrev pub Dict {ℓ κ} : Type ℓ → Type κ → Type (ℓ ⊔ κ)
Dict K V = List (K × V)

module _ {ℓ κ} {K : Type ℓ} {V : Type κ} ⦃key : Key K⦄ where
  abbrev pub lookup : K → Dict K V → Option V
  lookup k [] = none
  lookup k ((j, v) ∷ d) = if j == k then some v else lookup k d

  -- `k in d`
  abbrev pub contains : K → Dict K V → Bool
  contains k d = elim (lookup k d) [ none ↦ false | some v ↦ true ]

  -- `d[k] = v`
  abbrev pub insert : K → V → Dict K V → Dict K V
  insert k v [] = (k, v) ∷ []
  insert k v ((j, w) ∷ d) = if j == k then (j, v) ∷ d else (j, w) ∷ insert k v d

  -- `del d[k]`
  abbrev pub erase : K → Dict K V → Dict K V
  erase k [] = []
  erase k ((j, w) ∷ d) = if j == k then d else (j, w) ∷ erase k d

  pub lookup-insert_self : (k : K) (v : V) (d : Dict K V) → lookup k (insert k v d) ≡ some v
  lookup-insert_self k v [] = ground (arith, key.same_iff k k)
  lookup-insert_self k v ((j, w) ∷ d) = ground (arith, key.same_iff k k, lookup-insert_self k v d)

  pub lookup-insert_ne :
      (j k : K) (v : V) (d : Dict K V) → j ≢ k → lookup j (insert k v d) ≡ lookup j d
  lookup-insert_ne j k v [] h = ground (arith, key.same_iff k j)
  lookup-insert_ne j k v ((i, w) ∷ d) h =
      ground (arith, key.same_iff i k, key.same_iff i j, lookup-insert_ne j k v d h)

  pub lookup-insert :
      (j k : K) (v : V) (d : Dict K V)
      → lookup j (insert k v d) ≡ (if k == j then some v else lookup j d)
  lookup-insert j k v [] = refl
  lookup-insert j k v ((i, w) ∷ d) =
      ground (arith, key.same_iff i k, key.same_iff i j, key.same_iff k j, lookup-insert j k v d)

  -- Deleting a key leaves every other key as it was.
  pub lookup-erase_ne : (j k : K) (d : Dict K V) → j ≢ k → lookup j (erase k d) ≡ lookup j d
  lookup-erase_ne j k [] other = refl
  lookup-erase_ne j k ((i, w) ∷ d) other = elim (Bool-cases (i == k)) [
    | inl hit ↦ ground (arith, hit, key.same_iff i k, key.same_iff i j)
    | inr miss ↦ ground (arith, miss, lookup-erase_ne j k d other)
  ]

  -- No key stands twice.
  abbrev pub IsNodup : Dict K V → Type κ
  IsNodup [] = Unit {κ}
  IsNodup ((k, v) ∷ d) = (lookup k d ≡ none) × IsNodup d

  pub insert-IsNodup : (k : K) (v : V) (d : Dict K V) → IsNodup d → IsNodup (insert k v d)
  insert-IsNodup k v [] h = (refl, tt)
  insert-IsNodup k v ((j, w) ∷ d) h =
      ground
        (arith, key.same_iff j k, key.same_iff k j, insert-IsNodup k v d h.1, lookup-insert j k v d)

  pub erase-IsNodup : (k : K) (d : Dict K V) → IsNodup d → IsNodup (erase k d)
  erase-IsNodup k [] h = tt
  erase-IsNodup k ((j, w) ∷ d) h =
      ground (arith, key.same_iff j k, erase-IsNodup k d h.1, lookup-erase_ne j k d)

  pub lookup-erase_self : (k : K) (d : Dict K V) → IsNodup d → lookup k (erase k d) ≡ none
  lookup-erase_self k [] h = refl
  lookup-erase_self k ((j, w) ∷ d) h = ground (arith, key.same_iff j k, lookup-erase_self k d h.1)

-- A predicate of every value.
abbrev pub AllValues {ℓ κ μ} : {K : Type ℓ} {V : Type κ} → (V → Type μ) → Dict K V → Type μ
AllValues P [] = Unit
AllValues P ((k, v) ∷ d) = P v × AllValues P d

module _ {ℓ κ μ} {K : Type ℓ} {V : Type κ} ⦃key : Key K⦄ (P : V → Type μ) where
  pub AllValues-insert :
      (k : K) (v : V) (d : Dict K V) → AllValues P d → P v → AllValues P (insert k v d)
  AllValues-insert k v [] h p = (p, tt)
  AllValues-insert k v ((j, w) ∷ d) h p = elim (Bool-cases (j == k)) [
    | inl same ↦ rw same (p, h.1)
    | inr other ↦ rw other (h.0, AllValues-insert k v d h.1 p)
  ]

  pub AllValues-lookup : (k : K) {v : V} (d : Dict K V) → AllValues P d → lookup k d ≡ some v → P v
  AllValues-lookup k [] h q = cc
  AllValues-lookup k {v} ((j, w) ∷ d) h q = elim (Bool-cases (j == k)) [
    | inl same ↦ let e : w ≡ v = ground arith in subst P e h.0
    | inr other ↦ AllValues-lookup k d h.1 (rw other at q)
  ]

  pub AllValues-erase : (k : K) (d : Dict K V) → AllValues P d → AllValues P (erase k d)
  AllValues-erase k [] h = tt
  AllValues-erase k ((j, w) ∷ d) h = elim (Bool-cases (j == k)) [
    | inl same ↦ rw same h.1
    | inr other ↦ rw other (h.0, AllValues-erase k d h.1)
  ]

-- A predicate of every key with its value.
abbrev pub AllEntries {ℓ κ μ} : {K : Type ℓ} {V : Type κ} → (K → V → Type μ) → Dict K V → Type μ
AllEntries P [] = Unit
AllEntries P ((k, v) ∷ d) = P k v × AllEntries P d

module _ {ℓ κ μ} {K : Type ℓ} {V : Type κ} ⦃key : Key K⦄ (P : K → V → Type μ) where
  pub AllEntries-insert :
      (k : K) (v : V) (d : Dict K V) → AllEntries P d → P k v → AllEntries P (insert k v d)
  AllEntries-insert k v [] h p = (p, tt)
  AllEntries-insert k v ((j, w) ∷ d) h p = elim (Bool-cases (j == k)) [
    | inl hit ↦ rw hit (subst (λ x. P x v) (sym ((key.same_iff j k).0 hit)) p, h.1)
    | inr miss ↦ rw miss (h.0, AllEntries-insert k v d h.1 p)
  ]

  pub AllEntries-lookup :
      (k : K) {v : V} (d : Dict K V) → AllEntries P d → lookup k d ≡ some v → P k v
  AllEntries-lookup k [] h q = cc
  AllEntries-lookup k {v} ((j, w) ∷ d) h q = elim (Bool-cases (j == k)) [
    | inl hit ↦
        let e : w ≡ v = ground arith in
        subst (P k) e (subst (λ x. P x w) ((key.same_iff j k).0 hit) h.0)
    | inr miss ↦ AllEntries-lookup k d h.1 (rw miss at q)
  ]

  pub AllEntries-erase : (k : K) (d : Dict K V) → AllEntries P d → AllEntries P (erase k d)
  AllEntries-erase k [] h = tt
  AllEntries-erase k ((j, w) ∷ d) h = elim (Bool-cases (j == k)) [
    | inl hit ↦ rw hit h.1
    | inr miss ↦ rw miss (h.0, AllEntries-erase k d h.1)
  ]
