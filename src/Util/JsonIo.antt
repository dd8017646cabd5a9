-- ===== src/Util/JsonIo.antt =====
-- src/wapp_planner/util/jsonio.py: the object that a model's free text holds.
pub mod Laws
use whatsapp_automatic_plann.Prelude.{
  ℕ, zero, suc, ◌+◌, ◌-◌, Bool, true, false, Option, none, some, List, [], ◌∷◌, ltb, ◌==ℕ◌,
  if◌then◌else◌,
}
use whatsapp_automatic_plann.Prelude.Texts.{Text}
use whatsapp_automatic_plann.Errors.{Result, ok, err, value_error}

-- `text.find(c)`, with no index for -1.
unfoldable pub find : ℕ → Text → Option ℕ
find c [] = none
find c (x ∷ xs) =
    if x ==ℕ c then some 0 else elim (find c xs) [ none ↦ none | some i ↦ some (suc i) ]

-- `text.rfind(c)`
unfoldable pub rfind : ℕ → Text → Option ℕ
rfind c [] = none
rfind c (x ∷ xs) = elim (rfind c xs) [
  | none ↦ if x ==ℕ c then some 0 else none
  | some i ↦ some (suc i)
]

abbrev pub take : ℕ → Text → Text
take zero xs = []
take (suc n) [] = []
take (suc n) (x ∷ xs) = x ∷ take n xs

abbrev pub drop : ℕ → Text → Text
drop zero xs = xs
drop (suc n) [] = []
drop (suc n) (x ∷ xs) = drop n xs

-- `text[start:stop]`
unfoldable pub slice : Text → ℕ → ℕ → Text
slice text start stop = take (stop - start) (drop start text)

unfoldable pub extract_json_object : Text → Result Text
unfolding find rfind slice
extract_json_object text = elim (find b'{' text) [
  | none ↦ err value_error
  | some start ↦ elim (rfind b'}' text) [
    | none ↦ err value_error
    | some stop ↦ if ltb stop start then err value_error else ok (slice text start (stop + 1))
  ]
]
