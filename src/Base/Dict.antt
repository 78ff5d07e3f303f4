-- ===== src/Base/Dict.antt =====
-- A Python dict keyed by strings, in insertion order.
use mathlib.Core.Path.{◌≡◌, refl, subst}
use mathlib.Core.Logic.{◌≢◌, inl, inr}
use mathlib.Core.Bool.{Bool, true, false}
use mathlib.Core.List.{List, [], ◌∷◌}
use mathlib.Core.Option.{Option, none, some}
use native.Mathlib.Omega.{arith}
use prismpath.Base.Tests.{if◌then◌else◌, Bool-cases}
use prismpath.Base.Lists.{All}
use prismpath.Base.Text.{Text, text_eq, text_eq_iff}

abbrev pub Dict {ℓ} : Type ℓ → Type ℓ
Dict V = List (Text × V)

module _ {ℓ} {V : Type ℓ} where
  -- `d.get(k)`
  abbrev pub lookup : Text → Dict V → Option V
  lookup k [] = none
  lookup k ((j, v) ∷ d) = if text_eq j k then some v else lookup k d

  -- `d.get(k, default)`
  abbrev pub lookup_or : V → Text → Dict V → V
  lookup_or default k d = elim (lookup k d) [ none ↦ default | some v ↦ v ]

  -- `k in d`
  abbrev pub has_key : Text → Dict V → Bool
  has_key k d = elim (lookup k d) [ none ↦ false | some _ ↦ true ]

  -- `d[k] = v`
  abbrev pub insert : Text → V → Dict V → Dict V
  insert k v [] = (k, v) ∷ []
  insert k v ((j, w) ∷ d) = if text_eq j k then (j, v) ∷ d else (j, w) ∷ insert k v d

  abbrev pub keys : Dict V → List Text
  keys [] = []
  keys ((j, v) ∷ d) = j ∷ keys d

  pub lookup-insert :
      (k j : Text) (v : V) (d : Dict V)
      → lookup j (insert k v d) ≡ (if text_eq k j then some v else lookup j d)
  lookup-insert k j v [] = refl
  lookup-insert k j v ((i, w) ∷ d) =
      ground (arith, text_eq_iff k j, text_eq_iff i k, text_eq_iff i j, lookup-insert k j v d)

  pub lookup-insert_self : (k : Text) (v : V) (d : Dict V) → lookup k (insert k v d) ≡ some v
  lookup-insert_self k v d = ground (arith, lookup-insert k k v d, text_eq_iff k k)

  pub lookup-insert_ne :
      (k j : Text) (v : V) (d : Dict V) → k ≢ j → lookup j (insert k v d) ≡ lookup j d
  lookup-insert_ne k j v d h = ground (arith, lookup-insert k j v d, text_eq_iff k j)

module _ {ℓ κ} {V : Type ℓ} (P : Text × V → Type κ) where
  -- An entry keeps its key when its value is replaced.
  pub insert-All :
      (k : Text) (v : V) (d : Dict V)
      → ((j : Text) → j ≡ k → P (j, v))
      → All P d
      → All P (insert k v d)
  insert-All k v [] new h = (new k refl, h)
  insert-All k v ((j, w) ∷ d) new (h, hs) = elim (Bool-cases (text_eq j k)) [
    | inl t ↦ rw t (new j ((text_eq_iff j k).0 t), hs)
    | inr t ↦ rw t (h, insert-All k v d new hs)
  ]

  pub All-lookup : (k : Text) (v : V) (d : Dict V) → All P d → lookup k d ≡ some v → P (k, v)
  All-lookup k v [] h e = cc
  All-lookup k v ((j, w) ∷ d) (h, hs) e = found (text_eq j k) refl e (All-lookup k v d hs)
    where
      same : {a b : V} → some a ≡ some b → a ≡ b
      same q = cc

      found :
          (b : Bool)
          → text_eq j k ≡ b
          → (if b then some w else lookup k d) ≡ some v
          → (lookup k d ≡ some v → P (k, v))
          → P (k, v)
      found true t q rest =
          subst (λ i. P (i, v)) ((text_eq_iff j k).0 t) (subst (λ u. P (j, u)) (same q) h)
      found false t q rest = rest q
