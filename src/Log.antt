-- ===== src/Log.antt =====
-- src/utils/logger/Logger.h and Logger.cpp: the observers of the log. A text is its list of codes; `date` is what
-- `strftime` prints, and an observer is what it makes of the prompt and of an entry. The mutex of the console is held for one line, so
-- a line is one step.
mod Tests
use mundosvirtuales_terremot.Base.{ℕ, ◌%◌, ◌≡◌, refl, ap, List, [], ◌∷◌, ◌++◌, map}

pub data Kind : Type 0 where
  debug_kind log_kind error_kind : Kind

pub record LogEntry : Type 0 where
  pub kind : Kind
  pub millis : ℕ
  pub source : List ℕ
  pub message : List ℕ

-- A line of the console: type, date with the milliseconds, source, prompt and message, between separators.
pub record Line : Type 0 where
  pub kind : Kind
  pub date : List ℕ
  pub fraction : ℕ
  pub source : List ℕ
  pub prompt : List ℕ
  pub message : List ℕ

-- m_listObs and m_prompt.
pub record Logger (Output : Type 0) : Type 0 where
  pub observers : List (List ℕ → LogEntry → Output)
  pub prompt : List ℕ

module _ {Output : Type 0} where
  -- The constructor adds the console.
  abbrev pub new_logger : (List ℕ → LogEntry → Output) → Logger Output
  new_logger console = record { observers = console ∷ []; prompt = [] }

  unfoldable pub add_observer : Logger Output → (List ℕ → LogEntry → Output) → Logger Output
  add_observer l observer = record l { observers = l.observers ++ observer ∷ [] }

  unfoldable pub set_prompt : Logger Output → List ℕ → Logger Output
  set_prompt l prompt = record l { prompt = prompt }

  -- `updateLogger`: what the observers make of an entry, in their order.
  unfoldable pub update_logger : Logger Output → LogEntry → List Output
  update_logger l e = map (λ observer. observer l.prompt e) l.observers

  -- `Debug`, `Log` and `Error` at a time.
  unfoldable pub log : Logger Output → Kind → ℕ → List ℕ → List ℕ → List Output
  unfolding update_logger
  log l kind millis source message =
      update_logger l (record { kind = kind; millis = millis; source = source; message = message })

  -- An observer hears every entry from the time it is added on, after those that were added before it.
  pub log-add_observer :
      (l : Logger Output) (observer : List ℕ → LogEntry → Output) (kind : Kind) (millis : ℕ)
      (source message : List ℕ)
      → log (add_observer l observer) kind millis source message
        ≡ log l kind millis source message
          ++ observer l.prompt
              (record { kind = kind; millis = millis; source = source; message = message })
            ∷ []
  unfolding log add_observer
  log-add_observer l observer kind millis source message = added l.observers
    where
      e : LogEntry
      e = record { kind = kind; millis = millis; source = source; message = message }

      added :
          (os : List (List ℕ → LogEntry → Output))
          → map (λ o. o l.prompt e) (os ++ observer ∷ [])
            ≡ map (λ o. o l.prompt e) os ++ observer l.prompt e ∷ []
      added [] = refl
      added (o ∷ os) = ap (◌∷◌ (o l.prompt e)) (added os)

-- `consoleLogger` with `getStringDate`; `print_date` is `localtime` with `strftime`.
unfoldable pub console_logger : (ℕ → List ℕ) → List ℕ → LogEntry → Line
console_logger print_date prompt e = record {
  kind = e.kind;
  date = print_date e.millis;
  fraction = e.millis % 1000;
  source = e.source;
  prompt = prompt;
  message = e.message;
}
