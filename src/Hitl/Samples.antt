-- ===== src/Hitl/Samples.antt =====
-- A codec for the tests of the links: four copies of each number for base64, the numbers of the
-- fields for JSON, and the parity of the length for a digest.
use Prim.Native.Nat.{Ordering, compare}
use Prim.Native.Char.{Char, char, code, IsLt, IsScalar}
use text.Mathlib.TextEquality.{Char-path}
use mathlib.Core.List.{append-nil}
use whatsapp_automatic_plann.Prelude.{
  ℕ, zero, suc, ◌+◌, ◌-◌, ◌*◌, ◌%◌, ◌≡◌, refl, ◌<◌, false, String, Option, none, some, [], ◌∷◌,
  length, arith, ap, ◌==ℕ◌, sym, ◌∙◌,
}
use whatsapp_automatic_plann.Prelude.Texts.{Text, Lacks, codes, is_ascii}
use whatsapp_automatic_plann.Workflow.Enums.{Intent}
use whatsapp_automatic_plann.Domain.Enums.{
  OwnerInteractionKind, classification, approval, OwnerDecision, confirm, correct, reject, approve,
  revise,
}
use whatsapp_automatic_plann.Hitl.Tokens.{ActionToken, TokenCodec, IsLawful}

-- The same clauses as those of `IsScalar`.
abbrev Both : Ordering → Ordering → Type 0
Both Ordering.lt o = IsLt o
Both Ordering.eq _ = ⊥
Both Ordering.gt _ = ⊥

abbrev Scalar : Ordering → Ordering → Ordering → Type 0
Scalar Ordering.lt _ _ = Unit
Scalar Ordering.eq o p = Both o p
Scalar Ordering.gt o p = Both o p

abbrev is_lt : (o : Ordering) → Dec (IsLt o)
is_lt Ordering.lt = yes tt
is_lt Ordering.eq = no (λ x. x)
is_lt Ordering.gt = no (λ x. x)

abbrev are_lt : (o p : Ordering) → Dec (Both o p)
are_lt Ordering.lt p = is_lt p
are_lt Ordering.eq _ = no (λ x. x)
are_lt Ordering.gt _ = no (λ x. x)

abbrev is_scalar : (o p q : Ordering) → Dec (Scalar o p q)
is_scalar Ordering.lt _ _ = yes tt
is_scalar Ordering.eq p q = are_lt p q
is_scalar Ordering.gt p q = are_lt p q

abbrev of_code_by : (n : ℕ) → Dec (IsScalar n) → Option Char
of_code_by n (yes p) = some (char n p)
of_code_by n (no _) = none

abbrev of_code : ℕ → Option Char
of_code n = of_code_by n (is_scalar (compare n 55296) (compare 57343 n) (compare n 1114112))

of_code_by-code : (c : Char) (d : Dec (IsScalar (code c))) → of_code_by (code c) d ≡ some c
of_code_by-code (char n p) (yes q) = ap some (Char-path (char n q) (char n p) refl)
of_code_by-code (char n p) (no q) = absurd (q p)

abbrev attach : Option Char → Option String → Option String
attach (some c) (some s) = some (String.◌∷◌ c s)
attach _ _ = none

abbrev of_codes : Text → Option String
of_codes [] = some ""
of_codes (x ∷ xs) = attach (of_code x) (of_codes xs)

of_codes-codes : (s : String) → of_codes (codes s) ≡ some s
of_codes-codes String.[] = refl
of_codes-codes (String.◌∷◌ c s) =
    ap (λ o. attach o (of_codes (codes s)))
      (of_code_by-code c
        (is_scalar (compare (code c) 55296) (compare 57343 (code c)) (compare (code c) 1114112)))
    ∙ ap (attach (some c)) (of_codes-codes s)

abbrev gate_number : OwnerInteractionKind → ℕ
gate_number classification = 0
gate_number approval = 1

abbrev gate_of : ℕ → OwnerInteractionKind
gate_of zero = classification
gate_of (suc _) = approval

abbrev decision_number : OwnerDecision → ℕ
decision_number confirm = 0
decision_number correct = 1
decision_number reject = 2
decision_number approve = 3
decision_number revise = 4

abbrev decision_of : ℕ → OwnerDecision
decision_of zero = confirm
decision_of (suc zero) = correct
decision_of (suc (suc zero)) = reject
decision_of (suc (suc (suc zero))) = approve
decision_of (suc (suc (suc (suc _)))) = revise

abbrev intent_number : Option Intent → ℕ
intent_number none = 0
intent_number (some Intent.quote) = 1
intent_number (some Intent.execution_plan) = 2
intent_number (some Intent.none) = 3

abbrev intent_of : ℕ → Option Intent
intent_of zero = none
intent_of (suc zero) = some Intent.quote
intent_of (suc (suc zero)) = some Intent.execution_plan
intent_of (suc (suc (suc _))) = some Intent.none

abbrev dump : ActionToken → Text
dump t =
    gate_number t.gate
    ∷ decision_number t.decision
    ∷ t.expires_at
    ∷ intent_number t.intent
    ∷ t.revision_no
    ∷ codes t.request_id

abbrev token_of : ℕ → ℕ → ℕ → ℕ → ℕ → Option String → Option ActionToken
token_of g d at i n none = none
token_of g d at i n (some request_id) = some (record {
  request_id = request_id;
  gate = gate_of g;
  decision = decision_of d;
  expires_at = at;
  intent = intent_of i;
  revision_no = n;
})

abbrev load : Text → Option ActionToken
load (g ∷ d ∷ at ∷ i ∷ n ∷ id) = token_of g d at i n (of_codes id)
load _ = none

gate_of-number : (g : OwnerInteractionKind) → gate_of (gate_number g) ≡ g
gate_of-number classification = refl
gate_of-number approval = refl

decision_of-number : (d : OwnerDecision) → decision_of (decision_number d) ≡ d
decision_of-number confirm = refl
decision_of-number correct = refl
decision_of-number reject = refl
decision_of-number approve = refl
decision_of-number revise = refl

intent_of-number : (i : Option Intent) → intent_of (intent_number i) ≡ i
intent_of-number none = refl
intent_of-number (some Intent.quote) = refl
intent_of-number (some Intent.execution_plan) = refl
intent_of-number (some Intent.none) = refl

load-dump : (t : ActionToken) → load (dump t) ≡ some t
load-dump t =
    ap
      (token_of (gate_number t.gate) (decision_number t.decision) t.expires_at
        (intent_number t.intent) t.revision_no)
      (of_codes-codes t.request_id)
    ∙ rw (gate_of-number t.gate, decision_of-number t.decision, intent_of-number t.intent) refl

abbrev four_times : Text → Text
four_times [] = []
four_times (x ∷ xs) = (x + 100) ∷ (x + 100) ∷ (x + 100) ∷ (x + 100) ∷ four_times xs

abbrev put_back : ℕ → Option Text → Option Text
put_back x none = none
put_back x (some xs) = some (x ∷ xs)

abbrev quarter : Text → Option Text
quarter [] = some []
quarter (a ∷ _ ∷ _ ∷ _ ∷ xs) = put_back (a - 100) (quarter xs)
quarter _ = none

quarter-four_times : (xs : Text) → quarter (four_times xs) ≡ some xs
quarter-four_times [] = refl
quarter-four_times (x ∷ xs) = ground (arith, quarter-four_times xs)

length-four_times : (xs : Text) → length (four_times xs) ≡ 4 * length xs
length-four_times [] = omega arith
length-four_times (x ∷ xs) = ground (arith, length-four_times xs)

four_times-Lacks : (c : ℕ) (xs : Text) → c < 100 → Lacks c (four_times xs)
four_times-Lacks c [] h = tt
four_times-Lacks c (x ∷ xs) h =
    let e : (x + 100 ==ℕ c) ≡ false = ground arith in (e, (e, (e, (e, four_times-Lacks c xs h))))

abbrev pub sample_codec : TokenCodec
sample_codec = record {
  hmac = λ secret payload. (48 + (length secret + length payload) % 10) ∷ [];
  encode64 = four_times;
  decode64 = quarter;
  dump_token = dump;
  load_token = load;
}

pub sample_codec-IsLawful : IsLawful sample_codec
unfolding is_ascii
sample_codec-IsLawful = record {
  padded = λ bytes. record {
    unpadded = four_times bytes;
    padding = 0;
    parts = sym (append-nil (four_times bytes));
    few = omega arith;
    complete = omega (arith, length-four_times bytes);
    no_sign = four_times-Lacks b'=' bytes (omega arith);
    no_stop = four_times-Lacks b'.' bytes (omega arith);
  };
  decoded = quarter-four_times;
  loaded = load-dump;
  digest_ascii = λ secret payload. ground arith;
  digest_no_stop = λ secret payload. (ground arith, tt);
}
