-- ===== src/Prelude/DictSplits.antt =====
-- A dict split at one of its entries, whose key is not listed twice.
use mathlib.Core.Path.{◌≡◌, refl}
use mathlib.Core.Option.{none, some}
use mathlib.Core.List.{[], ◌∷◌, ◌++◌}
use native.Mathlib.Omega.{arith}
use Prim.Native.String.{String}
use whatsapp_automatic_plann.Prelude.Dict.{Dict, lookup, insert, erase, NodupKeys}

module _ {ℓ} {V : Type ℓ} where
  pub lookup-middle :
      (xs : Dict V) (k : String) (v : V) (ys : Dict V)
      → NodupKeys (xs ++ (k, v) ∷ ys)
      → lookup k (xs ++ (k, v) ∷ ys) ≡ some v
  unfolding lookup
  lookup-middle [] k v ys h = ground arith
  lookup-middle ((j, w) ∷ xs) k v ys h = ground (arith, lookup-middle xs k v ys h.1)

  pub erase-middle :
      (xs : Dict V) (k : String) (v : V) (ys : Dict V)
      → NodupKeys (xs ++ (k, v) ∷ ys)
      → erase k (xs ++ (k, v) ∷ ys) ≡ xs ++ ys
  unfolding erase
  erase-middle [] k v ys h = ground arith
  erase-middle ((j, w) ∷ xs) k v ys h =
      ground (arith, erase-middle xs k v ys h.1, lookup-middle xs k v ys h.1)

  pub lookup-middle_none :
      (j : String) (xs : Dict V) (k : String) (v : V) (ys : Dict V)
      → lookup j (xs ++ (k, v) ∷ ys) ≡ none
      → lookup j (xs ++ ys) ≡ none
  unfolding lookup
  lookup-middle_none j [] k v ys h = ground arith
  lookup-middle_none j ((i, w) ∷ xs) k v ys h = ground (arith, lookup-middle_none j xs k v ys)

  pub NodupKeys-middle :
      (xs : Dict V) (k : String) (v : V) (ys : Dict V)
      → NodupKeys (xs ++ (k, v) ∷ ys)
      → NodupKeys (xs ++ ys)
  NodupKeys-middle [] k v ys h = h.1
  NodupKeys-middle ((j, w) ∷ xs) k v ys h =
      (lookup-middle_none j xs k v ys h.0, NodupKeys-middle xs k v ys h.1)

  pub lookup-before :
      (xs : Dict V) (k : String) (v : V) (ys : Dict V)
      → NodupKeys (xs ++ (k, v) ∷ ys)
      → lookup k xs ≡ none
  unfolding lookup
  lookup-before [] k v ys h = refl
  lookup-before ((j, w) ∷ xs) k v ys h =
      ground (arith, lookup-before xs k v ys h.1, lookup-middle xs k v ys h.1)

  -- A new key goes to the end.
  pub insert_new :
      (k : String) (v : V) (d : Dict V) → lookup k d ≡ none → insert k v d ≡ d ++ (k, v) ∷ []
  unfolding insert lookup
  insert_new k v [] h = refl
  insert_new k v ((j, w) ∷ d) h = ground (arith, insert_new k v d)
