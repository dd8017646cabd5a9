-- ===== src/Util/JsonIo/Laws.antt =====
-- What `extract_json_object` finds, and when it refuses.
use whatsapp_automatic_plann.Prelude.{
  ℕ, ◌+◌, ◌-◌, ◌<◌, ◌≡◌, refl, none, some, [], ◌∷◌, ◌++◌, length, length-append, arith,
  Option-cases, inl, inr, ap,
}
use mathlib.Core.List.{append_assoc}
use whatsapp_automatic_plann.Prelude.Texts.{Text, Lacks}
use whatsapp_automatic_plann.Errors.{ok, err, value_error}
use whatsapp_automatic_plann.Util.JsonIo.{find, rfind, take, drop, slice, extract_json_object}

find-append : (c : ℕ) (pre rest : Text) → Lacks c pre → find c (pre ++ c ∷ rest) ≡ some (length pre)
unfolding find
find-append c [] rest h = ground arith
find-append c (x ∷ pre) rest h = ground (arith, find-append c pre rest h.1)

find-Lacks : (c : ℕ) (xs : Text) → Lacks c xs → find c xs ≡ none
unfolding find
find-Lacks c [] h = refl
find-Lacks c (x ∷ xs) h = ground (arith, find-Lacks c xs h.1)

rfind-Lacks : (c : ℕ) (xs : Text) → Lacks c xs → rfind c xs ≡ none
unfolding rfind
rfind-Lacks c [] h = refl
rfind-Lacks c (x ∷ xs) h = ground (arith, rfind-Lacks c xs h.1)

rfind-append :
    (c : ℕ) (pre rest : Text) → Lacks c rest → rfind c (pre ++ c ∷ rest) ≡ some (length pre)
unfolding rfind
rfind-append c [] rest h = ground (arith, rfind-Lacks c rest h)
rfind-append c (x ∷ pre) rest h = ground (arith, rfind-append c pre rest h)

drop-append : (pre rest : Text) → drop (length pre) (pre ++ rest) ≡ rest
drop-append [] rest = refl
drop-append (x ∷ pre) rest = drop-append pre rest

take-through :
    (c : ℕ) (pre rest : Text) → take (length (pre ++ c ∷ [])) (pre ++ c ∷ rest) ≡ pre ++ c ∷ []
take-through c [] rest = refl
take-through c (x ∷ pre) rest = ap (λ t. x ∷ t) (take-through c pre rest)

rfind-lt :
    (c : ℕ) (pre rest : Text) (i : ℕ)
    → Lacks c rest
    → rfind c (pre ++ rest) ≡ some i
    → i < length pre
unfolding rfind
rfind-lt c [] rest i h e = ground (arith, rfind-Lacks c rest h)
rfind-lt c (x ∷ pre) rest i h e = elim (Option-cases (rfind c (pre ++ rest))) [
  | inl n ↦ ground arith
  | inr (j, n) ↦ ground (arith, rfind-lt c pre rest j h n)
]

regroup :
    (pre body post : Text)
    → pre ++ b'{' ∷ (body ++ b'}' ∷ post) ≡ (pre ++ b'{' ∷ body) ++ b'}' ∷ post
regroup pre body post = simp append_assoc

slice-object :
    (pre body post : Text) (stop : ℕ)
    → stop ≡ length (pre ++ b'{' ∷ body)
    → slice (pre ++ b'{' ∷ (body ++ b'}' ∷ post)) (length pre) (stop + 1)
      ≡ b'{' ∷ (body ++ b'}' ∷ [])
unfolding slice
slice-object pre body post stop e =
    let object : Text = b'{' ∷ (body ++ b'}' ∷ []) in
    let width : stop + 1 - length pre ≡ length object =
      omega (arith, length-append pre (b'{' ∷ body), length-append body (b'}' ∷ [])) in
    rw (width, drop-append) (ap (λ t. b'{' ∷ t) (take-through b'}' body post))

-- From a reply that wraps an object in prose, the object comes out whole: from the first opening
-- brace to the last closing one, whatever stands between them.
pub extract_json_object_lem :
    (pre body post : Text)
    → Lacks b'{' pre
    → Lacks b'}' post
    → extract_json_object (pre ++ b'{' ∷ (body ++ b'}' ∷ post)) ≡ ok (b'{' ∷ (body ++ b'}' ∷ []))
unfolding extract_json_object
extract_json_object_lem pre body post h k =
    let last : rfind b'}' (pre ++ b'{' ∷ (body ++ b'}' ∷ post))
        ≡ some (length (pre ++ b'{' ∷ body)) =
      rw regroup (rfind-append b'}' (pre ++ b'{' ∷ body) post k) in
    ground (
      arith,
      last,
      find-append b'{' pre (body ++ b'}' ∷ post) h,
      length-append pre (b'{' ∷ body),
      slice-object pre body post (length (pre ++ b'{' ∷ body)) refl,
    )

-- A text is refused with a `ValueError` when it has no opening brace, and when no closing brace
-- stands behind the first opening one.
pub extract_json_object_refuses :
    (pre rest : Text)
    → Lacks b'{' pre
    → (extract_json_object pre ≡ err value_error)
      × (Lacks b'}' rest → extract_json_object (pre ++ b'{' ∷ rest) ≡ err value_error)
unfolding extract_json_object
extract_json_object_refuses pre rest h = (
  ground (arith, find-Lacks b'{' pre h),
  λ k. elim (Option-cases (rfind b'}' (pre ++ b'{' ∷ rest))) [
    | inl absent ↦ ground (arith, find-append b'{' pre rest h)
    | inr (i, found) ↦
        ground
          (arith, find-append b'{' pre rest h, rfind-lt b'}' pre (b'{' ∷ rest) i (refl, k) found)
  ],
)
