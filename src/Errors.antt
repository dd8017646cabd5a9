-- ===== src/Errors.antt =====
-- The exceptions of the program as values, and calls that thread a state and may raise.
use whatsapp_automatic_plann.Prelude.{
  ◌≡◌, refl, ◌⊎◌, inl, inr, Bool, true, false, Option, none, some, String,
}
use whatsapp_automatic_plann.Workflow.Enums.{RequestState, Trigger}
use whatsapp_automatic_plann.Domain.Enums.{Channel}

-- The classes of src/wapp_planner that extend `Exception`, the built-in ones that its code raises,
-- and `external` for what a service or library raises.
pub data Error : Type 0 where
  illegal_transition : RequestState → Trigger → Error
  unknown_request unknown_prompt_version : String → Error
  missing_notifier : Channel → Error
  generation_error classification_error invalid_token expired_token signature_error : Error
  invalid_payload webhook_verification media_too_large media_rejected validation_error : Error
  value_error attribute_error type_error key_error index_error lookup_error json_decode_error :
      Error
  external : String → Error

pub data Result (A : Type 0) : Type 0 where
  ok : A → Result A
  err : Error → Result A

-- A call on a state. What was written stays written when it raises.
abbrev pub Action : Type 0 → Type 0 → Type 0
Action S A = S → Result A × S

abbrev pub is_ok : {A : Type 0} → Result A → Bool
is_ok (ok _) = true
is_ok (err _) = false

module _ {S : Type 0} where
  abbrev pub pure : {A : Type 0} → A → Action S A
  pure a s = (ok a, s)

  abbrev pub raise : {A : Type 0} → Error → Action S A
  raise e s = (err e, s)

  -- A pure computation that may raise.
  abbrev pub lift : {A : Type 0} → Result A → Action S A
  lift r s = (r, s)

  abbrev pub modify : (S → S) → Action S (Unit {0})
  modify f s = (ok tt, f s)

-- What a call does behind a first part that ended so.
unfoldable pub after : {S A B : Type 0} → Result A × S → (A → Action S B) → Result B × S
after (ok a, s) f = f a s
after (err e, s) f = (err e, s)

infixl 5 ◌>>=◌ ◌>>◌
abbrev pub ◌>>=◌ : {S A B : Type 0} → Action S A → (A → Action S B) → Action S B
◌>>=◌ m f s = after (m s) f

abbrev pub ◌>>◌ : {S A B : Type 0} → Action S A → Action S B → Action S B
m >> k = m >>= λ _. k

-- `f (← r)` for a result with no state.
abbrev pub and_then : {A B : Type 0} → Result A → (A → Result B) → Result B
and_then (ok a) f = f a
and_then (err e) f = err e

abbrev pub or_raise : {A : Type 0} → Option A → Error → Result A
or_raise none e = err e
or_raise (some a) _ = ok a

pub Result-cases :
    {A : Type 0} (r : Result A) → ((a : A) × (r ≡ ok a)) ⊎ ((e : Error) × (r ≡ err e))
Result-cases (ok a) = inl (a, refl)
Result-cases (err e) = inr (e, refl)

-- What a chain that succeeds went through.
pub and_then-eq-ok :
    {A B : Type 0} (r : Result A) (f : A → Result B) {b : B}
    → and_then r f ≡ ok b
    → (a : A) × (r ≡ ok a) × (f a ≡ ok b)
and_then-eq-ok (ok a) f h = (a, refl, h)
and_then-eq-ok (err e) f h = cc

-- What a call that returns went through.
pub after-eq-ok :
    {S A B : Type 0} (x : Result A × S) (f : A → Action S B) {b : B}
    → (after x f).0 ≡ ok b
    → (a : A) × (x ≡ (ok a, x.1)) × (after x f ≡ f a x.1)
unfolding after
after-eq-ok (ok a, s) f h = (a, refl, refl)
after-eq-ok (err e, s) f h = cc

-- To prove something of a bind: of every error, and of the rest of the call after every value that
-- its first part can return.
pub >>=-cases {κ} :
    {S A B : Type 0} (P : Result B → Type κ) (m : Action S A) (f : A → Action S B) (s : S)
    → ((e : Error) → P (err e))
    → ((a : A) (s' : S) → m s ≡ (ok a, s') → P (f a s').0)
    → P ((m >>= f) s).0
unfolding after
>>=-cases {S} {A} {B} P m f s h k = go (m s) refl
  where
    go : (r : Result A × S) → m s ≡ r → P (after r f).0
    go (ok a, s') e = k a s' e
    go (err x, s') e = h x
