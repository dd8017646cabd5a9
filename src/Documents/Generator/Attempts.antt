-- ===== src/Documents/Generator/Attempts.antt =====
-- What the retries of the generator come to.
use whatsapp_automatic_plann.Prelude.{
  ℕ, zero, suc, ◌+◌, ◌*◌, ◌^◌, ◌<◌, ◌≡◌, refl, inl, inr, String, Option, arith, ltb, sym,
  if◌then◌else◌,
}
use mathlib.Core.Path.{subst}
use whatsapp_automatic_plann.Workflow.Enums.{Intent}
use whatsapp_automatic_plann.Errors.{
  after, Error, Action, Result, ok, err, generation_error, Result-cases,
}
use whatsapp_automatic_plann.Providers.{Llm}
use whatsapp_automatic_plann.Documents.Content.{DocumentContent}
use whatsapp_automatic_plann.Documents.Generator.{
  GeneratedDocument, ContentCodec, attempt, attempt_loop, generate, build_user_prompt,
}
use whatsapp_automatic_plann.Nlp.Prompts.{generation_system_prompt}

module _ (codec : ContentCodec) {W : Type 0} (llm : Llm W) (model : String) (sleep : ℕ → W → W)
    (backoff_base : ℕ) (system user : String) (intent : Option Intent) (max_attempts : ℕ) where
  abbrev try : ℕ → Action W GeneratedDocument
  try = attempt codec llm model sleep system user intent

  -- The pause after the failed attempt of this number, unless it was the last.
  abbrev pub pause : ℕ → W → W
  pause n w = if ltb (n + 1) max_attempts then sleep (backoff_base * 2 ^ n) w else w

  -- The attempts 0, …, n - 1 have all failed, one after another, each with its pause.
  pub data Failed (start : W) : ℕ → W → Type 0 where
    begin : Failed start 0 start
    again :
        {n : ℕ} {w : W} {e : Error}
        → Failed start n w
        → (try n w).0 ≡ err e
        → Failed start (suc n) (pause n (try n w).1)

  -- A document from the first attempt that succeeds, or the error once all have failed.
  pub data Outcome (start : W) (r : Result GeneratedDocument × W) : Type 0 where
    succeeded :
        (n : ℕ) (w : W) (doc : GeneratedDocument)
        → Failed start n w
        → n < max_attempts
        → doc.attempts ≡ n + 1
        → (try n w).0 ≡ ok doc
        → r ≡ (ok doc, (try n w).1)
        → Outcome start r
    exhausted : Failed start max_attempts r.1 → r.0 ≡ err generation_error → Outcome start r

  attempts-attempt :
      (n : ℕ) (w : W) (doc : GeneratedDocument) → (try n w).0 ≡ ok doc → doc.attempts ≡ n + 1
  unfolding attempt after
  attempts-attempt n w doc h = ground arith

  abbrev loop : ℕ → ℕ → Action W GeneratedDocument
  loop = attempt_loop codec llm model sleep backoff_base system user intent max_attempts

  loop_ok :
      (left n : ℕ) (w : W) (doc : GeneratedDocument)
      → (try n w).0 ≡ ok doc
      → loop (suc left) n w ≡ (ok doc, (try n w).1)
  unfolding attempt_loop after
  loop_ok left n w doc h = ground arith

  loop_err :
      (left n : ℕ) (w : W) (e : Error)
      → (try n w).0 ≡ err e
      → loop (suc left) n w ≡ loop left (n + 1) (pause n (try n w).1)
  unfolding attempt_loop after
  loop_err left n w e h = ground arith

  -- The loop from any attempt on.
  loop-Outcome :
      (start : W) (left n : ℕ) (w : W)
      → n + left ≡ max_attempts
      → Failed start n w
      → Outcome start (loop left n w)
  unfolding attempt_loop after
  loop-Outcome start zero n w e f = exhausted (subst (λ k. Failed start k w) (omega arith) f) refl
  loop-Outcome start (suc left) n w e f = elim (Result-cases (try n w).0) [
    | inl (doc, h) ↦
        succeeded n w doc f (omega arith) (attempts-attempt n w doc h) h (loop_ok left n w doc h)
    | inr (x, h) ↦ subst (Outcome start) (sym (loop_err left n w x h)) (
        loop-Outcome start left (n + 1) _ (omega arith)
          (subst (λ k. Failed start k (pause n (try n w).1)) (omega arith) (again f h)))
  ]

module _ (codec : ContentCodec) {W : Type 0} (llm : Llm W) (model : String)
    (sleep : ℕ → W → W) where
  -- Once the prompts are there, `generate` either returns the document of the first attempt that
  -- succeeds, numbered from 1 and at most the maximum, all earlier ones having failed, each with
  -- its pause; or it raises `GenerationError` after the maximum of failed attempts.
  pub generate-Outcome :
      (version : String) (max_attempts backoff_base : ℕ) (intent : Option Intent)
      (transcript client_name : String) (feedback : Option String)
      (previous : Option DocumentContent) {system user : String} (start : W)
      → generation_system_prompt intent version ≡ ok system
      → build_user_prompt codec intent transcript client_name feedback previous ≡ ok user
      → Outcome codec llm model sleep backoff_base system user intent max_attempts start (
          generate codec llm model sleep version max_attempts backoff_base intent transcript
            client_name feedback previous start)
  unfolding generate after
  generate-Outcome version max_attempts backoff_base intent transcript client_name feedback previous
        {system} {user} start hs hu =
      rw (hs, generate)
        (rw (hu, generate)
          (loop-Outcome codec llm model sleep backoff_base system user intent max_attempts start
            max_attempts 0 start (omega arith) begin))
