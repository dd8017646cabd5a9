-- ===== src/Nlp/Prompts.antt =====
-- src/wapp_planner/nlp/prompts.py
use whatsapp_automatic_plann.Prelude.{String, ◌<>◌, Option, none, some, ◌==◌, if◌then◌else◌}
use whatsapp_automatic_plann.Workflow.Enums.{Intent, quote, execution_plan}
use whatsapp_automatic_plann.Errors.{
  Result, ok, err, unknown_prompt_version, value_error, attribute_error,
}

-- `_CLASSIFICATION_V1`
abbrev classification_v1 : String
classification_v1 =
    "You classify inbound WhatsApp messages for a US civil-construction / renovation\n"
    <> "planning business. The owner's clients send job details and ask for one of:\n" <> "\n"
    <> "- \"quote\": a detailed cost estimate / budget (often: \"how much\", \"price\",\n"
    <> "  \"estimate\", \"bid\", \"cotação\", \"orçamento\").\n"
    <> "- \"execution_plan\": a step-by-step plan for HOW to execute the work (often:\n"
    <> "  \"how do we do this\", \"steps\", \"plan the job\", \"planejamento\", \"etapas\").\n"
    <> "\n" <> "If the message is small talk, a greeting, or unrelated to either, classify it as\n"
    <> "\"none\".\n" <> "\n"
    <> "Decide the single best intent. Respond ONLY with a JSON object of the form:\n"
    <> "{\"intent\": \"quote\" | \"execution_plan\" | \"none\", \"confidence\": <0.0-1.0>,\n"
    <> " \"rationale\": \"<one short sentence>\"}\n"

-- `_GENERATION_QUOTE_V1`
abbrev generation_quote_v1 : String
generation_quote_v1 =
    "You are a senior estimator for a US civil-construction / renovation company.\n"
    <> "From the client's request transcript, produce a detailed, professional cost\n"
    <> "estimate (QUOTE) WRITTEN IN ENGLISH for the client to forward to their customer.\n"
    <> "Be specific with line items, quantities and realistic unit prices. State your\n"
    <> "assumptions and exclusions explicitly. Leave the tax field blank (\"TBD\") for the\n"
    <> "owner to fill. Respond ONLY with a JSON object matching the requested schema.\n"

-- `_GENERATION_PLAN_V1`
abbrev generation_plan_v1 : String
generation_plan_v1 =
    "You are a senior project planner for a US civil-construction / renovation\n"
    <> "company. From the client's request transcript, produce a detailed, step-by-step\n"
    <> "EXECUTION PLAN written in English describing exactly how to perform the work,\n"
    <> "phase by phase, from preparation through cleanup and handover. Include materials,\n"
    <> "safety/code notes, dependencies and time estimates. Respond ONLY with a JSON\n"
    <> "object matching the requested schema.\n"

unfoldable pub classification_system_prompt : String → Result String
classification_system_prompt version =
    if version == "v1" then ok classification_v1 else err (unknown_prompt_version version)

-- `prompts[intent]`. Where the intent is missing, the message of the `ValueError` reads
-- `intent.value`, which fails first if the intent is `None`.
unfoldable pub prompt_of : Option Intent → Result String
prompt_of (some quote) = ok generation_quote_v1
prompt_of (some execution_plan) = ok generation_plan_v1
prompt_of (some Intent.none) = err value_error
prompt_of none = err attribute_error

unfoldable pub generation_system_prompt : Option Intent → String → Result String
unfolding prompt_of
generation_system_prompt intent version =
    if version == "v1" then prompt_of intent else err (unknown_prompt_version version)
