-- ===== src/Prelude/Dict.antt =====
-- Python dicts keyed by texts, in insertion order. Proofs elsewhere go by the laws.
use mathlib.Core.Path.{◌≡◌, refl}
use mathlib.Core.Option.{Option, none, some}
use mathlib.Core.List.{List, [], ◌∷◌}
use native.Mathlib.Omega.{arith}
use Prim.Native.String.{String}
use whatsapp_automatic_plann.Prelude.Tests.{◌==◌, if◌then◌else◌}

abbrev pub Dict {ℓ} : Type ℓ → Type ℓ
Dict V = List (String × V)

module _ {ℓ} {V : Type ℓ} where
  -- `d.get(k)`
  unfoldable pub lookup : String → Dict V → Option V
  lookup k [] = none
  lookup k ((j, v) ∷ d) = if k == j then some v else lookup k d

  -- `d[k] = v`
  unfoldable pub insert : String → V → Dict V → Dict V
  insert k v [] = (k, v) ∷ []
  insert k v ((j, w) ∷ d) = if k == j then (k, v) ∷ d else (j, w) ∷ insert k v d

  -- `d.pop(k)` of a key that is there: the entry goes.
  unfoldable pub erase : String → Dict V → Dict V
  erase k [] = []
  erase k ((j, w) ∷ d) = if k == j then d else (j, w) ∷ erase k d

  -- No key is listed twice.
  abbrev pub NodupKeys : Dict V → Type ℓ
  NodupKeys [] = Unit
  NodupKeys ((k, _) ∷ d) = (lookup k d ≡ none) × NodupKeys d

  pub lookup-nil : (k : String) → lookup k [] ≡ none
  unfolding lookup
  lookup-nil k = refl

  pub lookup-cons :
      (j k : String) (v : V) (d : Dict V)
      → lookup j ((k, v) ∷ d) ≡ (if j == k then some v else lookup j d)
  unfolding lookup
  lookup-cons j k v d = refl

  pub lookup-insert :
      (j k : String) (v : V) (d : Dict V)
      → lookup j (insert k v d) ≡ (if j == k then some v else lookup j d)
  unfolding insert lookup
  lookup-insert j k v [] = refl
  lookup-insert j k v (_ ∷ d) = ground (arith, lookup-insert j k v d)

  pub lookup-erase_ne : (j k : String) (d : Dict V) → ¬ (j ≡ k) → lookup j (erase k d) ≡ lookup j d
  unfolding erase lookup
  lookup-erase_ne j k [] h = refl
  lookup-erase_ne j k (_ ∷ d) h = ground (arith, lookup-erase_ne j k d h)

  pub lookup-erase_self : (k : String) (d : Dict V) → NodupKeys d → lookup k (erase k d) ≡ none
  unfolding erase lookup
  lookup-erase_self k [] h = refl
  lookup-erase_self k (_ ∷ d) h = ground (arith, lookup-erase_self k d h.1)

  pub insert-NodupKeys : (k : String) (v : V) (d : Dict V) → NodupKeys d → NodupKeys (insert k v d)
  unfolding insert
  insert-NodupKeys k v [] _ = (lookup-nil k, tt)
  insert-NodupKeys k v ((j, _) ∷ d) h =
      ground (arith, insert-NodupKeys k v d h.1, lookup-insert j k v d)

  pub erase-NodupKeys : (k : String) (d : Dict V) → NodupKeys d → NodupKeys (erase k d)
  unfolding erase
  erase-NodupKeys k [] _ = tt
  erase-NodupKeys k ((j, _) ∷ d) h = ground (arith, erase-NodupKeys k d h.1, lookup-erase_ne j k d)

-- A property of every entry.
module _ {ℓ κ} {V : Type ℓ} (P : String → V → Type κ) where
  abbrev pub Each : Dict V → Type κ
  Each [] = Unit
  Each ((k, v) ∷ d) = P k v × Each d

  pub insert-Each : (k : String) (v : V) (d : Dict V) → P k v → Each d → Each (insert k v d)
  unfolding insert
  insert-Each k v [] p h = (p, tt)
  insert-Each k v ((j, w) ∷ d) p h = ground (arith, insert-Each k v d p h.1)

  pub erase-Each : (k : String) (d : Dict V) → Each d → Each (erase k d)
  unfolding erase
  erase-Each k [] h = tt
  erase-Each k ((j, w) ∷ d) h = ground (arith, erase-Each k d h.1)

  pub lookup-Each : (k : String) (v : V) (d : Dict V) → Each d → lookup k d ≡ some v → P k v
  unfolding lookup
  lookup-Each k v [] h e = cc
  lookup-Each k v ((j, w) ∷ d) h e = ground (arith, lookup-Each k v d h.1)
