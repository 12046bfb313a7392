-- ===== src/Log/Tests.antt =====
-- Runs of the log.
use mundosvirtuales_terremot.Base.{◌≡◌, refl, [], ◌∷◌}
use mundosvirtuales_terremot.Log.{
  new_logger, set_prompt, log, console_logger, error_kind, update_logger,
}

prompt_shown :
    log
      (set_prompt (new_logger (console_logger (λ m. 50 ∷ []))) (62 ∷ []))
      error_kind
      5007
      (1 ∷ [])
      (2 ∷ [])
    ≡ record {
      kind = error_kind;
      date = 50 ∷ [];
      fraction = 7;
      source = 1 ∷ [];
      prompt = 62 ∷ [];
      message = 2 ∷ [];
    }
      ∷ []
unfolding log set_prompt console_logger update_logger
prompt_shown = refl
