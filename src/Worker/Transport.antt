-- ===== src/Worker/Transport.antt =====
-- app/infrastructure/background_jobs/job_store.py: the calls of the database with their retries,
-- `fetch_next_job` and `load_source_document`. Delays are in milliseconds.
pub mod Retries
use cire_rag.Base.{
  if◌then◌else◌, any, ℕ, zero, suc, ◌+◌, ◌*◌, min, max, String, Bool, not, ◌||◌, Option, List, [],
  ◌∷◌,
}
use cire_rag.Base.Text.{contains}
use cire_rag.Base.Value.{Fields, Python}
use cire_rag.Worker.Lookup.{Load, loaded, transient_error, permanent_error}

-- One call: its answer, the `RuntimeError` of a missing response, or an exception with the name of
-- its class and its text.
pub data Reply (A : Type 0) : Type 0 where
  answered : A → Reply A
  empty_response : Reply A
  thrown : String → String → Reply A

abbrev pub transient_markers : List String
transient_markers =
    "readerror" ∷ "connecterror" ∷ "remoteprotocolerror" ∷ "timeouterror" ∷ "pooltimeout"
    ∷ "temporarily unavailable" ∷ "connection reset" ∷ "broken pipe" ∷ "502" ∷ "503" ∷ "504"
    ∷ "bad gateway" ∷ "json could not be generated" ∷ []

abbrev pub empty_response_text : String
empty_response_text = "supabase_empty_response"

-- How a retried call ends: an answer, or the exception of the last attempt.
pub data Ending (A : Type 0) : Type 0 where
  answer : A → Ending A
  raised_empty : Ending A
  raised : String → String → Ending A

-- The settings of the retries: `max(0, ...)` and `max(0.05, ...)` of the source are the floor of ℕ
-- and the 50 below.
pub record Settings : Type 0 where
  pub transient_max_retries : ℕ
  pub transient_base_delay : ℕ

abbrev pub base_delay : Settings → ℕ
base_delay s = max 50 s.transient_base_delay

-- `2 ** n`
unfoldable pub doubled : ℕ → ℕ
doubled zero = 1
doubled (suc n) = 2 * doubled n

-- The delay after an attempt; `jitter` is the answer of `random.uniform(0.0, 0.12)`.
abbrev pub delay : Settings → ℕ → ℕ → ℕ
delay s attempt jitter = min (base_delay s * doubled attempt) 3000 + jitter

-- What a retried call did: its ending, its attempts and the time slept.
pub record Retried (A : Type 0) : Type 0 where
  pub ending : Ending A
  pub attempts : ℕ
  pub slept : ℕ

module _ ⦃py : Python⦄ where
  unfoldable pub is_transient_supabase_transport_error : String → String → Bool
  is_transient_supabase_transport_error name text =
      any (λ m. contains m (py.lower name)) transient_markers
      || any (λ m. contains m (py.lower text)) transient_markers

  unfoldable pub is_transient : String → String → Bool
  is_transient name text =
      is_transient_supabase_transport_error name text || contains empty_response_text text

  -- The loop, with `left` retries after this attempt.
  unfoldable pub retry_loop :
      {A : Type 0} → Settings → (ℕ → Reply A) → (ℕ → ℕ) → ℕ → ℕ → ℕ → Retried A
  retry_loop s call jitter zero attempt slept = elim (call attempt) [
    | answered a ↦ record { ending = answer a; attempts = attempt + 1; slept = slept }
    | empty_response ↦ record { ending = raised_empty; attempts = attempt + 1; slept = slept }
    | thrown n t ↦ record { ending = raised n t; attempts = attempt + 1; slept = slept }
  ]
  retry_loop s call jitter (suc left) attempt slept =
      let again =
        retry_loop s call jitter left (attempt + 1) (slept + delay s attempt (jitter attempt)) in
      elim (call attempt) [
        | answered a ↦ record { ending = answer a; attempts = attempt + 1; slept = slept }
        | empty_response ↦ again
        | thrown n t ↦
            if is_transient n t
            then again
            else record { ending = raised n t; attempts = attempt + 1; slept = slept }
      ]

  -- `fetch_next_job` and `load_source_document`, by what their call answers on each attempt.
  unfoldable pub with_retries : {A : Type 0} → Settings → (ℕ → Reply A) → (ℕ → ℕ) → Retried A
  with_retries s call jitter = retry_loop s call jitter s.transient_max_retries 0 0

  -- What the lookup sees of `load_source_document`.
  unfoldable pub load_of : Ending (Option Fields) → Load
  load_of (answer rec) = loaded rec
  load_of raised_empty =
      if is_transient_supabase_transport_error "RuntimeError"
        "supabase_empty_response:load_source_document"
      then transient_error
      else permanent_error
  load_of (raised name text) =
      if is_transient_supabase_transport_error name text then transient_error else permanent_error
