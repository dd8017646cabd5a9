-- ===== src/Aggregation/Ids.antt =====
-- The ids of requests that are on their way: those of open buckets, and of buckets that were
-- closed and are not processed yet.
use mathlib.Core.Path.{subst}
use mathlib.Core.List.{append-nil}
use whatsapp_automatic_plann.Prelude.{
  ◌≡◌, refl, ap, sym, Bool, not, String, Option, none, some, List, [], ◌∷◌, ◌++◌, map, keep, All,
  inl, inr, Bool-cases, arith, ◌==◌,
}
use whatsapp_automatic_plann.Prelude.Dict.{Dict, lookup, insert, erase}
use whatsapp_automatic_plann.Aggregation.{OpenBucket, AggregatedRequest, closed}
use whatsapp_automatic_plann.Aggregation.Flush.{requests}

abbrev pub ids : Dict OpenBucket → List String
ids [] = []
ids ((_, b) ∷ d) = b.request_id ∷ ids d

abbrev pub request_ids : List AggregatedRequest → List String
request_ids = map (λ a. a.request_id)

-- The id of the request that `add` takes out of its bucket.
abbrev pub displaced_ids : Option AggregatedRequest → List String
displaced_ids none = []
displaced_ids (some r) = r.request_id ∷ []

pub request_ids-requests : (d : Dict OpenBucket) → request_ids (requests d) ≡ ids d
unfolding closed
request_ids-requests [] = refl
request_ids-requests ((_, b) ∷ d) = ap (λ l. b.request_id ∷ l) (request_ids-requests d)

All-middle :
    (Q : String → Type 0) (xs : List String) (x : String) (ys : List String)
    → All Q (xs ++ x ∷ ys)
    → Q x × All Q (xs ++ ys)
All-middle Q [] x ys h = h
All-middle Q (z ∷ xs) x ys h = let (q, r) = All-middle Q xs x ys h.1 in (q, (h.0, r))

All-at_middle :
    (Q : String → Type 0) (xs : List String) (x : String) (ys : List String)
    → Q x
    → All Q (xs ++ ys)
    → All Q (xs ++ x ∷ ys)
All-at_middle Q [] x ys q h = (q, h)
All-at_middle Q (z ∷ xs) x ys q h = (h.0, All-at_middle Q xs x ys q h.1)

All-keep :
    (Q : String → Type 0) (p : OpenBucket → Bool) (d : Dict OpenBucket)
    → All Q (ids d)
    → All Q (ids (keep (λ (_, b). p b) d) ++ ids (keep (λ (_, b). not (p b)) d))
All-keep Q p [] h = tt
All-keep Q p ((_, b) ∷ d) h = elim (Bool-cases (p b)) [
  | inl e ↦ rw (e, keep) (h.0, All-keep Q p d h.1)
  | inr e ↦
      rw (e, keep)
        (All-at_middle Q (ids (keep (λ (_, b). p b) d)) b.request_id _ h.0 (All-keep Q p d h.1))
]

found : (c b : OpenBucket) → some c ≡ some b → c ≡ b
found c b e = cc

none_found : (c : OpenBucket) → some c ≡ none → ⊥
none_found c e = cc

All-erase :
    (Q : String → Type 0) (key : String) (b : OpenBucket) (d : Dict OpenBucket)
    → lookup key d ≡ some b
    → All Q (ids d)
    → Q b.request_id × All Q (ids (erase key d))
unfolding lookup erase
All-erase Q key b [] e h = cc
All-erase Q key b ((j, c) ∷ d) e h = elim (Bool-cases (key == j)) [
  | inl this ↦
      rw (this, erase) (subst (λ x. Q x.request_id) (found c b (rw (this, lookup) at e)) h.0, h.1)
  | inr other ↦
      let (q, r) = All-erase Q key b d (rw (other, lookup) at e) h.1 in
      rw (other, erase) (q, (h.0, r))
]

pub ids-insert_new :
    (key : String) (b : OpenBucket) (d : Dict OpenBucket)
    → lookup key d ≡ none
    → ids (insert key b d) ≡ ids d ++ b.request_id ∷ []
unfolding lookup insert
ids-insert_new key b [] e = refl
ids-insert_new key b ((j, c) ∷ d) e = elim (Bool-cases (key == j)) [
  | inl this ↦ absurd (none_found c (rw (this, lookup) at e))
  | inr other ↦
      rw (other, insert)
        (ap (λ l. c.request_id ∷ l) (ids-insert_new key b d (rw (other, lookup) at e)))
]

-- The ids differ from one another, and each has the property.
abbrev pub AreDistinct : (String → Type 0) → List String → Type 0
AreDistinct P [] = Unit
AreDistinct P (x ∷ xs) = P x × All (λ y. ¬ (x ≡ y)) xs × AreDistinct P xs

module _ {P : String → Type 0} where
  pub AreDistinct-impl :
      {Q : String → Type 0}
      → ((x : String) → P x → Q x)
      → (xs : List String) → AreDistinct P xs
      → AreDistinct Q xs
  AreDistinct-impl f [] h = tt
  AreDistinct-impl f (x ∷ xs) h = (f x h.0, h.1, AreDistinct-impl f xs h.2)

  pub AreDistinct-All :
      {Q : String → Type 0}
      → ((x : String) → P x → Q x)
      → (xs : List String) → AreDistinct P xs
      → All Q xs
  AreDistinct-All f [] h = tt
  AreDistinct-All f (x ∷ xs) h = (f x h.0, AreDistinct-All f xs h.2)

  -- The premise may also know that the id differs from one that all the others differ from.
  pub AreDistinct-other :
      {Q : String → Type 0} (z : String)
      → ((x : String) → ¬ (z ≡ x) → P x → Q x)
      → (xs : List String) → All (λ y. ¬ (z ≡ y)) xs
      → AreDistinct P xs
      → AreDistinct Q xs
  AreDistinct-other z f [] o h = tt
  AreDistinct-other z f (x ∷ xs) o h = (f x o.0 h.0, h.1, AreDistinct-other z f xs o.1 h.2)

module _ (P : String → Type 0) where
  AreDistinct-front :
      (xs : List String) (x : String) (ys : List String)
      → AreDistinct P (xs ++ x ∷ ys)
      → AreDistinct P (x ∷ (xs ++ ys))
  AreDistinct-front [] x ys h = h
  AreDistinct-front (z ∷ xs) x ys h =
      let (p, o, r) = AreDistinct-front xs x ys h.2 in
      let (ne, o') = All-middle (λ y. ¬ (z ≡ y)) xs x ys h.1 in
      (p, ((λ e. ne (sym e)), o), (h.0, o', r))

  pub AreDistinct-middle :
      (xs : List String) (x : String) (ys : List String)
      → AreDistinct P (x ∷ (xs ++ ys))
      → AreDistinct P (xs ++ x ∷ ys)
  AreDistinct-middle [] x ys h = h
  AreDistinct-middle (z ∷ xs) x ys h = (
    h.2.0,
    All-at_middle (λ y. ¬ (z ≡ y)) xs x ys (λ e. h.1.0 (sym e)) h.2.1,
    AreDistinct-middle xs x ys (h.0, h.1.1, h.2.2),
  )

  pub AreDistinct-drop : (xs ys : List String) → AreDistinct P (xs ++ ys) → AreDistinct P ys
  AreDistinct-drop [] ys h = h
  AreDistinct-drop (x ∷ xs) ys h = AreDistinct-drop xs ys h.2

  -- A new id behind all others.
  pub AreDistinct-last :
      (xs : List String) (x : String)
      → P x
      → All (λ y. ¬ (x ≡ y)) xs
      → AreDistinct P xs
      → AreDistinct P (xs ++ x ∷ [])
  AreDistinct-last xs x p o h = AreDistinct-middle xs x [] (rw append-nil (p, o, h))

  -- To close the buckets of a kind all at once.
  pub AreDistinct-keep :
      (p : OpenBucket → Bool) (d : Dict OpenBucket)
      → AreDistinct P (ids d)
      → AreDistinct P (ids (keep (λ (_, b). p b) d) ++ ids (keep (λ (_, b). not (p b)) d))
  AreDistinct-keep p [] h = tt
  AreDistinct-keep p ((_, b) ∷ d) h =
      let others = All-keep (λ y. ¬ (b.request_id ≡ y)) p d h.1 in
      let rest = AreDistinct-keep p d h.2 in
      elim (Bool-cases (p b)) [
        | inl e ↦ rw (e, keep) (h.0, others, rest)
        | inr e ↦
            rw (e, keep)
              (AreDistinct-middle (ids (keep (λ (_, b). p b) d)) b.request_id _ (h.0, others, rest))
      ]

  -- To close one bucket.
  pub AreDistinct-erase :
      (key : String) (b : OpenBucket) (d : Dict OpenBucket)
      → lookup key d ≡ some b
      → AreDistinct P (ids d)
      → AreDistinct P (b.request_id ∷ ids (erase key d))
  unfolding lookup erase
  AreDistinct-erase key b [] e h = cc
  AreDistinct-erase key b ((j, c) ∷ d) e h = elim (Bool-cases (key == j)) [
    | inl this ↦
        rw (this, erase)
          (subst (λ x. AreDistinct P (x.request_id ∷ ids d)) (found c b (rw (this, lookup) at e)) h)
    | inr other ↦
        let e' : lookup key d ≡ some b = rw (other, lookup) at e in
        let (p, o, r) = AreDistinct-erase key b d e' h.2 in
        let (ne, o') = All-erase (λ y. ¬ (c.request_id ≡ y)) key b d e' h.1 in
        rw (other, erase) (p, ((λ q. ne (sym q)), o), (h.0, o', r))
  ]

  -- A bucket under a new key.
  pub AreDistinct-insert_new :
      (key : String) (b : OpenBucket) (d : Dict OpenBucket)
      → lookup key d ≡ none
      → AreDistinct P (b.request_id ∷ ids d)
      → AreDistinct P (ids (insert key b d))
  unfolding lookup insert
  AreDistinct-insert_new key b d e h =
      rw (ids-insert_new key b d e) (AreDistinct-middle (ids d) b.request_id [] (rw append-nil h))

-- A bucket in place of one with the same id.
pub ids-insert :
    (key : String) (b old : OpenBucket) (d : Dict OpenBucket)
    → lookup key d ≡ some old
    → b.request_id ≡ old.request_id
    → ids (insert key b d) ≡ ids d
unfolding lookup insert
ids-insert key b old [] e same = cc
ids-insert key b old ((j, c) ∷ d) e same = ground (arith, ids-insert key b old d)
