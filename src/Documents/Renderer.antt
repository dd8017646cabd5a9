-- ===== src/Documents/Renderer.antt =====
-- src/wapp_planner/documents/renderer.py. What the code asks of reportlab is a list of flowables,
-- what it asks of python-docx a list of calls; that the libraries turn them into bytes, or raise,
-- is a parameter.
use whatsapp_automatic_plann.Prelude.{
  ℕ, String, ◌<>◌, List, [], ◌∷◌, ◌++◌, map, ◌==ℕ◌, if◌then◌else◌,
}
use whatsapp_automatic_plann.Prelude.Texts.{Text, codes}
use whatsapp_automatic_plann.Errors.{Result, ok, and_then}
use whatsapp_automatic_plann.Providers.{Bytes, Attachment}
use whatsapp_automatic_plann.Documents.Content.{DocumentContent, Branding}
use whatsapp_automatic_plann.Documents.Layout.{
  Block, heading, paragraph, bullets, table, key_values, Formats, build_blocks,
}

abbrev pub pdf_mime : String
pdf_mime = "application/pdf"

abbrev pub docx_mime : String
docx_mime = "application/vnd.openxmlformats-officedocument.wordprocessingml.document"

-- `xml.sax.saxutils.escape`, on code points.
unfoldable pub escape : Text → Text
escape [] = []
escape (c ∷ cs) =
    (if c ==ℕ b'&'
      then codes "&amp;"
      else if c ==ℕ b'<'
      then codes "&lt;"
      else if c ==ℕ b'>'
      then codes "&gt;"
      else c ∷ [])
    ++ escape cs

pub data Style : Type 0 where
  heading_1 heading_2 heading_3 body_text : Style

-- The flowables of the story; a paragraph holds markup.
pub data Flowable : Type 0 where
  pdf_paragraph : Text → Style → Flowable
  pdf_bullets : List (Text × Style) → Flowable
  pdf_table : List (List String) → Flowable
  spacer : Flowable

-- The calls on the Word document. A table is its number of columns, and its cells row by row; a
-- run is bold or not.
pub data DocxCall : Type 0 where
  add_heading : String → ℕ → DocxCall
  add_paragraph : String → DocxCall
  add_list_item : String → DocxCall
  add_table : List String → List (List String) → DocxCall
  add_runs : String → String → DocxCall

-- The flowables of a block, without the spacer behind it.
unfoldable pub pdf_block : Block → List Flowable
unfolding escape
pdf_block (heading text level) =
    pdf_paragraph (escape (codes text)) (if level ==ℕ 1 then heading_1 else heading_2) ∷ []
pdf_block (paragraph text) = pdf_paragraph (escape (codes text)) body_text ∷ []
pdf_block (bullets title items) =
    pdf_paragraph (escape (codes title)) heading_3
    ∷ pdf_bullets (map (λ item. (escape (codes item), body_text)) items)
    ∷ []
pdf_block (table headers rows) = pdf_table (headers ∷ rows) ∷ []
pdf_block (key_values pairs) =
    map
      (λ (key, value).
        pdf_paragraph
          (codes "<b>" ++ (escape (codes key) ++ (codes ":</b> " ++ escape (codes value))))
          body_text)
      pairs

-- The loop of `render_pdf`.
unfoldable pub pdf_story : List Block → List Flowable
unfolding pdf_block
pdf_story [] = []
pdf_story (b ∷ bs) = pdf_block b ++ spacer ∷ pdf_story bs

unfoldable pub docx_block : Block → List DocxCall
docx_block (heading text level) = add_heading text level ∷ []
docx_block (paragraph text) = add_paragraph text ∷ []
docx_block (bullets title items) = add_heading title 3 ∷ map add_list_item items
docx_block (table headers rows) = add_table headers rows ∷ []
docx_block (key_values pairs) = map (λ (key, value). add_runs (key <> ": ") value) pairs

-- The loop of `render_docx`.
unfoldable pub docx_calls : List Block → List DocxCall
unfolding docx_block
docx_calls [] = []
docx_calls (b ∷ bs) = docx_block b ++ docx_calls bs

-- The formats of floats, `doc.build` with `buffer.getvalue`, and `doc.save` with it.
pub record RenderLibs : Type 0 where
  pub formats : Formats
  pub build_pdf : List Flowable → Result Bytes
  pub save_docx : List DocxCall → Result Bytes

module _ (libs : RenderLibs) where
  unfoldable pub render_pdf : List Block → Result Bytes
  unfolding pdf_story
  render_pdf blocks = libs.build_pdf (pdf_story blocks)

  unfoldable pub render_docx : List Block → Result Bytes
  unfolding docx_calls
  render_docx blocks = libs.save_docx (docx_calls blocks)

  unfoldable pub render_document : DocumentContent → Branding → String → Result (List Attachment)
  unfolding render_pdf render_docx
  render_document content branding basename =
      let blocks = build_blocks libs.formats content branding in
      and_then (render_pdf blocks) λ pdf. and_then (render_docx blocks) λ docx. ok (
        record { filename = basename <> ".pdf"; content = pdf; content_type = pdf_mime }
        ∷ record { filename = basename <> ".docx"; content = docx; content_type = docx_mime }
        ∷ [])
