-- ===== src/Documents/Content.antt =====
-- src/wapp_planner/documents/content.py and branding.py. A float, such as a price, counts units of
-- 2^-1074; all of them are at least zero (`Field(ge=0)`).
use whatsapp_automatic_plann.Prelude.{ℕ, String, Option, List}

pub record LineItem : Type 0 where
  pub description : String
  pub quantity : ℕ
  pub unit : String
  pub unit_price : ℕ
  pub total : ℕ

pub record QuoteContent : Type 0 where
  pub title : String
  pub prepared_for : String
  pub scope_summary : String
  pub line_items : List LineItem
  pub subtotal : ℕ
  pub tax : Option String
  pub total : ℕ
  pub assumptions : List String
  pub exclusions : List String
  pub validity : Option String
  pub notes : Option String

pub record Phase : Type 0 where
  pub name : String
  pub objective : String
  pub steps : List String
  pub safety_notes : Option String
  pub dependencies : List String
  pub estimated_duration : Option String

pub record ExecutionPlanContent : Type 0 where
  pub title : String
  pub overview : String
  pub materials : List String
  pub phases : List Phase
  pub quality_checkpoints : List String
  pub cleanup : Option String
  pub notes : Option String

-- `DocumentContent`; also what `model_dump` makes of it, a dict of the same fields.
pub data DocumentContent : Type 0 where
  quote_content : QuoteContent → DocumentContent
  plan_content : ExecutionPlanContent → DocumentContent

pub record Branding : Type 0 where
  pub company_name : String
  pub address : Option String
  pub contact : Option String
  pub quote_terms : Option String
