-- ===== src/Domain/Validation.antt =====
-- The validators of src/wapp_planner/domain/models.py.
use whatsapp_automatic_plann.Prelude.{
  ℕ, String, Option, none, some, List, [], ◌∷◌, leb, if◌then◌else◌,
}
use whatsapp_automatic_plann.Errors.{Result, ok, err, validation_error}
use whatsapp_automatic_plann.Nlp.Classifier.{Float, at_least_zero, below_zero, not_a_number, one}

-- The numbers of a client, as they are given.
pub data GivenNumbers : Type 0 where
  one_number : String → GivenNumbers
  several : List String → GivenNumbers

-- `Client._coerce_numbers`; a set is a list of its items.
unfoldable pub coerce_numbers : GivenNumbers → List String
coerce_numbers (one_number s) = s ∷ []
coerce_numbers (several xs) = xs

-- `Request._confidence_in_range`
unfoldable pub confidence_in_range : Option Float → Result (Option ℕ)
unfolding one
confidence_in_range none = ok none
confidence_in_range (some (at_least_zero c)) =
    if leb c one then ok (some c) else err validation_error
confidence_in_range (some below_zero) = err validation_error
confidence_in_range (some not_a_number) = err validation_error
