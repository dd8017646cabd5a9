-- ===== src/Documents/Tests.antt =====
-- A model that fails once and then sends an object.
use whatsapp_automatic_plann.Prelude.{
  String-discrete, ℕ, ◌+◌, refl, String, none, some, [], ltb, if◌then◌else◌,
}
use whatsapp_automatic_plann.Prelude.Texts.{codes}
use whatsapp_automatic_plann.Json.{null}
use whatsapp_automatic_plann.Workflow.Enums.{Intent}
use whatsapp_automatic_plann.Errors.{ok, err, external}
use whatsapp_automatic_plann.Providers.{Llm}
use whatsapp_automatic_plann.Nlp.Prompts.{generation_system_prompt}
use whatsapp_automatic_plann.Documents.Content.{QuoteContent}
use whatsapp_automatic_plann.Documents.Generator.{ContentCodec, build_user_prompt, generate}
use whatsapp_automatic_plann.Documents.Generator.Attempts.{Outcome, generate-Outcome}

abbrev quote : QuoteContent
quote = record {
  title = "Painting";
  prepared_for = "Ana";
  scope_summary = "Two rooms";
  line_items = [];
  subtotal = 0;
  tax = none;
  total = 0;
  assumptions = [];
  exclusions = [];
  validity = none;
  notes = none;
}

abbrev codec : ContentCodec
codec = record {
  loads = λ _. some null;
  dumps = λ _. "{}";
  read_quote = λ _. some quote;
  read_plan = λ _. none;
}

-- The world counts the calls of the model.
abbrev llm : Llm ℕ
llm system user model temperature calls =
    if ltb calls 1 then (err (external "timeout"), calls + 1) else (
      ok (record {
        text = codes "{}";
        model = model;
        input_tokens = 1;
        output_tokens = 1;
        cost_usd = 0;
      }),
      calls + 1,
    )

abbrev system_text : String
system_text = elim (generation_system_prompt (some Intent.quote) "v1") [ ok t ↦ t | err _ ↦ "" ]

abbrev user_text : String
user_text = elim (build_user_prompt codec (some Intent.quote) "paint" "Ana" none none) [
  | ok t ↦ t
  | err _ ↦ ""
]

generate-Outcome_example :
    Outcome codec llm "gpt"
      (λ _ w. w)
      1
      system_text
      user_text
      (some Intent.quote)
      3
      0
      (generate codec llm "gpt" (λ _ w. w) "v1" 3 1 (some Intent.quote) "paint" "Ana" none none 0)
unfolding generation_system_prompt build_user_prompt String-discrete
generate-Outcome_example =
    generate-Outcome codec llm "gpt" (λ _ w. w) "v1" 3 1 (some Intent.quote) "paint" "Ana" none none
      0 refl refl
