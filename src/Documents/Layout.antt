-- ===== src/Documents/Layout.antt =====
-- src/wapp_planner/documents/layout.py: the content as an ordered list of blocks.
use whatsapp_automatic_plann.Prelude.{
  ℕ, ◌+◌, String, ◌<>◌, Option, none, some, List, [], ◌∷◌, ◌++◌, map, or_text, ◌==◌, if◌then◌else◌,
}
use whatsapp_automatic_plann.Prelude.Decimal.{decimal}
use whatsapp_automatic_plann.Documents.Content.{
  LineItem, QuoteContent, Phase, ExecutionPlanContent, DocumentContent, quote_content, plan_content,
  Branding,
}

pub data Block : Type 0 where
  heading : String → ℕ → Block
  paragraph : String → Block
  bullets : String → List String → Block
  table : List String → List (List String) → Block
  key_values : List (String × String) → Block

-- The formats `:,.2f` and `:g` of a float.
pub record Formats : Type 0 where
  pub fixed : ℕ → String
  pub general : ℕ → String

-- `if text: blocks.append(…)`
abbrev pub if_text : Option String → (String → Block) → List Block
if_text none f = []
if_text (some s) f = if s == "" then [] else f s ∷ []

-- `if items: blocks.append(Bullets(title, items))`
abbrev pub if_items : String → List String → List Block
if_items title [] = []
if_items title (x ∷ xs) = bullets title (x ∷ xs) ∷ []

unfoldable pub branding_header : Branding → List Block
branding_header b =
    heading b.company_name 1 ∷ (if_text b.address paragraph ++ if_text b.contact paragraph)

module _ (formats : Formats) where
  unfoldable pub money : ℕ → String
  money value = "$" <> formats.fixed value

  unfoldable pub item_row : LineItem → List String
  unfolding money
  item_row item =
      item.description
      ∷ formats.general item.quantity
      ∷ item.unit
      ∷ money item.unit_price
      ∷ money item.total
      ∷ []

  unfoldable pub quote_blocks : QuoteContent → Branding → List Block
  unfolding branding_header money item_row
  quote_blocks content branding =
      branding_header branding
      ++ (heading content.title 2
          ∷ key_values (("Prepared for", content.prepared_for) ∷ [])
          ∷ heading "Scope" 2
          ∷ paragraph content.scope_summary
          ∷ table ("Description" ∷ "Qty" ∷ "Unit" ∷ "Unit price" ∷ "Total" ∷ [])
              (map item_row content.line_items)
          ∷ key_values (
              ("Subtotal", money content.subtotal)
              ∷ ("Tax", or_text content.tax "TBD")
              ∷ ("Total", money content.total)
              ∷ [])
          ∷ (if_items "Assumptions" content.assumptions
              ++ (if_items "Exclusions" content.exclusions
                  ++ (if_text content.validity (λ v. paragraph ("Validity: " <> v))
                      ++ (if_text content.notes (λ n. paragraph ("Notes: " <> n))
                          ++ if_text branding.quote_terms paragraph)))))

unfoldable pub phase_blocks : ℕ → Phase → List Block
phase_blocks index phase =
    heading ("Phase " <> decimal index <> ": " <> phase.name) 2
    ∷ paragraph ("Objective: " <> phase.objective)
    ∷ bullets "Steps" phase.steps
    ∷ (if_text phase.safety_notes (λ s. paragraph ("Safety / code: " <> s))
        ++ (if_items "Dependencies" phase.dependencies
            ++ if_text phase.estimated_duration (λ d. paragraph ("Estimated duration: " <> d))))

-- The loop over the phases, numbered from `index`.
unfoldable pub phases_blocks : ℕ → List Phase → List Block
unfolding phase_blocks
phases_blocks index [] = []
phases_blocks index (p ∷ ps) = phase_blocks index p ++ phases_blocks (index + 1) ps

unfoldable pub plan_blocks : ExecutionPlanContent → Branding → List Block
unfolding branding_header phases_blocks
plan_blocks content branding =
    branding_header branding
    ++ (heading content.title 2
        ∷ heading "Overview" 2
        ∷ paragraph content.overview
        ∷ (if_items "Materials & tools" content.materials
            ++ (phases_blocks 1 content.phases
                ++ (if_items "Quality checkpoints" content.quality_checkpoints
                    ++ (if_text content.cleanup (λ c. paragraph ("Cleanup & handover: " <> c))
                        ++ if_text content.notes (λ n. paragraph ("Notes: " <> n)))))))

unfoldable pub build_blocks : Formats → DocumentContent → Branding → List Block
unfolding quote_blocks plan_blocks
build_blocks formats (quote_content c) branding = quote_blocks formats c branding
build_blocks formats (plan_content c) branding = plan_blocks c branding
