-- ===== src/Nlp/Classifier/Laws.antt =====
-- What the classifier makes of any reply of the model.
use whatsapp_automatic_plann.Prelude.{
  ℕ, ◌≤◌, ◌≡◌, refl, Option, none, some, [], ◌∷◌, ◌++◌, arith, ◌⊎◌, inl, inr, Bool-cases,
  Option-cases, ltb, leb, false, ◌+◌,
}
use whatsapp_automatic_plann.Prelude.Texts.{Text, Lacks}
use whatsapp_automatic_plann.Json.{Json}
use whatsapp_automatic_plann.Errors.{
  Result, ok, err, classification_error, value_error, json_decode_error, and_then, or_raise,
}
use whatsapp_automatic_plann.Util.JsonIo.{extract_json_object, find, rfind, slice}
use whatsapp_automatic_plann.Util.JsonIo.Laws.{extract_json_object_lem}
use whatsapp_automatic_plann.Nlp.Classifier.{
  one, ClassificationResult, ReadFields, at_least_zero, below_zero, not_a_number, Float,
  check_range, parse_reply, except_value, except_decode,
}

in_range :
    (f : ReadFields) (c : ℕ)
    → c ≤ one
    → check_range f (at_least_zero c)
      ≡ ok (record { intent = f.intent; confidence = c; rationale = f.rationale })
unfolding check_range
in_range f c h = ground arith

out_of_range :
    (f : ReadFields) (c : ℕ)
    → leb c one ≡ false
    → check_range f (at_least_zero c) ≡ err classification_error
unfolding check_range
out_of_range f c h = ground arith

-- A classification in range, or a `ClassificationError`, or what `json.loads` raised that is no
-- `JSONDecodeError`.
abbrev pub IsSettled : (Text → Result Json) → Text → Result ClassificationResult → Type 0
IsSettled loads text (ok c) = c.confidence ≤ one
IsSettled loads text (err e) =
    (e ≡ classification_error)
    ⊎ ((snippet : Text) × (extract_json_object text ≡ ok snippet)
        × (loads snippet ≡ err e)
        × ¬ (e ≡ json_decode_error))

-- `extract_json_object` raises nothing but `ValueError`.
extracted :
    (text : Text)
    → ((snippet : Text) × (extract_json_object text ≡ ok snippet))
      ⊎ (extract_json_object text ≡ err value_error)
unfolding extract_json_object
extracted text = elim (Option-cases (find b'{' text)) [
  | inl e ↦ inr (ground arith)
  | inr (start, e) ↦ elim (Option-cases (rfind b'}' text)) [
    | inl f ↦ inr (ground arith)
    | inr (stop, f) ↦ elim (Bool-cases (ltb stop start)) [
      | inl b ↦ inr (ground arith)
      | inr b ↦ inl (slice text start (stop + 1), ground arith)
    ]
  ]
]

module _ (loads : Text → Result Json) (text : Text) where
  check_range-IsSettled : (f : ReadFields) (c : Float) → IsSettled loads text (check_range f c)
  unfolding check_range
  check_range-IsSettled f (at_least_zero n) = elim (Bool-cases (leb n one)) [
    | inl le ↦ let h : n ≤ one = ground arith in rw (in_range f n h) h
    | inr gt ↦ rw (out_of_range f n gt) (inl refl)
  ]
  check_range-IsSettled f below_zero = inl refl
  check_range-IsSettled f not_a_number = inl refl

  -- What becomes of the fields of an object.
  fields-IsSettled :
      (o : Option ReadFields)
      → IsSettled loads text
          (and_then (or_raise o classification_error) λ f. check_range f f.confidence)
  fields-IsSettled none = inl refl
  fields-IsSettled (some f) = check_range-IsSettled f f.confidence

  -- What `json.loads` makes of a snippet.
  loaded-IsSettled :
      (read_fields : Json → Option ReadFields) (snippet : Text) (r : Result Json)
      → extract_json_object text ≡ ok snippet
      → loads snippet ≡ r
      → IsSettled loads text (
          and_then (except_decode r) λ json.
            and_then
              (or_raise (read_fields json) classification_error)
              λ f. check_range f f.confidence)
  unfolding except_decode
  loaded-IsSettled read_fields snippet (ok json) x e = fields-IsSettled (read_fields json)
  loaded-IsSettled read_fields snippet (err json_decode_error) x e = inl refl
  loaded-IsSettled read_fields snippet (err other) x e = inr (snippet, x, e, λ same. cc)

module _ (loads : Text → Result Json) (read_fields : Json → Option ReadFields) where
  -- Whatever the model replies, the parser gives a classification with a confidence in [0, 1], or
  -- raises a `ClassificationError`, or what `json.loads` raised for the object that was extracted
  -- and is no `JSONDecodeError`.
  pub parse_reply-IsSettled :
      (text : Text) → IsSettled loads text (parse_reply loads read_fields text)
  unfolding parse_reply except_value
  parse_reply-IsSettled text = elim (extracted text) [
    | inl (snippet, e) ↦
        rw (e, parse_reply) (loaded-IsSettled loads text read_fields snippet (loads snippet) e refl)
    | inr e ↦ rw (e, parse_reply) (inl refl)
  ]

  -- A reply that wraps its object in text, with no opening brace before it and no closing one behind
  -- it, is classified as the object says, when `json.loads` and pydantic read it with a confidence in
  -- [0, 1].
  pub parse_reply_wrapped :
      (pre body post : Text) {j : Json} {f : ReadFields} {c : ℕ}
      → Lacks b'{' pre
      → Lacks b'}' post
      → loads (b'{' ∷ (body ++ b'}' ∷ [])) ≡ ok j
      → read_fields j ≡ some f
      → f.confidence ≡ at_least_zero c
      → c ≤ one
      → parse_reply loads read_fields (pre ++ b'{' ∷ (body ++ b'}' ∷ post))
        ≡ ok (record { intent = f.intent; confidence = c; rationale = f.rationale })
  unfolding parse_reply except_value except_decode
  parse_reply_wrapped pre body post {j} {f} {c} h k loaded read e le =
      ground (arith, extract_json_object_lem pre body post h k, in_range f c le)
