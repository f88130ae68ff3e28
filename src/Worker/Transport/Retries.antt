-- ===== src/Worker/Transport/Retries.antt =====
-- The retried calls of the job store: how often they are made, how long they sleep, how they end.
use cire_rag.Base.{
  ℕ, zero, suc, ◌+◌, ◌*◌, ◌≤◌, ◌<◌, ◌≡◌, refl, sym, ap, ◌∙◌, ◌⊎◌, inl, inr, Bool, true, false, not,
  Option, arith,
}
use cire_rag.Base.Text.{contains}
use cire_rag.Base.Value.{Fields, Python}
use cire_rag.Worker.Lookup.{permanent_error}
use cire_rag.Worker.Transport.{
  Reply, answered, empty_response, thrown, Ending, answer, raised_empty, raised, Settings, delay,
  is_transient, retry_loop, with_retries, load_of, is_transient_supabase_transport_error,
}

module _ ⦃py : Python⦄ where
  -- A reply that is not retried while retries are left.
  abbrev pub settles : {A : Type 0} → Reply A → Bool
  settles (answered a) = true
  settles empty_response = false
  settles (thrown n t) = not (is_transient n t)

  -- How a reply ends the call.
  abbrev pub ending_of : {A : Type 0} → Reply A → Ending A
  ending_of (answered a) = answer a
  ending_of empty_response = raised_empty
  ending_of (thrown n t) = raised n t

  loop_again :
      {A : Type 0} (s : Settings) (call : ℕ → Reply A) (jitter : ℕ → ℕ) (left i slept : ℕ)
      → settles (call i) ≡ false
      → retry_loop s call jitter (suc left) i slept
        ≡ retry_loop s call jitter left (i + 1) (slept + delay s i (jitter i))
  unfolding retry_loop
  loop_again s call jitter left i slept h = ground arith

  loop_stops :
      {A : Type 0} (s : Settings) (call : ℕ → Reply A) (jitter : ℕ → ℕ) (left i slept : ℕ)
      → (settles (call i) ≡ true) ⊎ (left ≡ 0)
      → retry_loop s call jitter left i slept
        ≡ record { ending = ending_of (call i); attempts = i + 1; slept = slept }
  unfolding retry_loop
  loop_stops s call jitter zero i slept h = ground arith
  loop_stops s call jitter (suc left) i slept h = ground arith

  loop_attempts :
      {A : Type 0} (s : Settings) (call : ℕ → Reply A) (jitter : ℕ → ℕ) (left i slept m : ℕ)
      → ((k : ℕ) → k < m → settles (call (i + k)) ≡ false)
      → m ≤ left
      → (settles (call (i + m)) ≡ true) ⊎ (m ≡ left)
      → ((retry_loop s call jitter left i slept).ending ≡ ending_of (call (i + m)))
        × ((retry_loop s call jitter left i slept).attempts ≡ i + m + 1)
  unfolding retry_loop
  loop_attempts s call jitter zero i slept zero before h at_m =
      let done = loop_stops s call jitter zero i slept (inr refl) in
      let here : call (i + 0) ≡ call i = ap call (omega arith) in
      rw (done, here) (refl, omega arith)
  loop_attempts s call jitter zero i slept (suc m) before h at_m = absurd (omega arith)
  loop_attempts s call jitter (suc left) i slept zero before h at_m =
      let here : call (i + 0) ≡ call i = ap call (omega arith) in
      let done = loop_stops s call jitter (suc left) i slept (ground arith) in
      rw (done, here) (refl, omega arith)
  loop_attempts s call jitter (suc left) i slept (suc m) before h at_m =
      let shift : (k : ℕ) → call (i + suc k) ≡ call (i + 1 + k) = λ k. ap call (omega arith) in
      let here : call (i + 0) ≡ call i = ap call (omega arith) in
      let (ends, made) =
        loop_attempts s call jitter left (i + 1) (slept + delay s i (jitter i)) m
          (λ k hk. ap settles (sym (shift k)) ∙ before (suc k) (omega arith)) (omega arith)
          (rw⁻¹ (shift m) (ground arith)) in
      let again =
        loop_again s call jitter left i slept (ap settles (sym here) ∙ before 0 (omega arith)) in
      (
        ap (λ r. r.ending) again ∙ ends ∙ ap ending_of (sym (shift m)),
        ap (λ r. r.attempts) again ∙ made ∙ omega arith,
      )

  loop_slept :
      {A : Type 0} (s : Settings) (call : ℕ → Reply A) (jitter : ℕ → ℕ) (left i slept bound : ℕ)
      → ((k : ℕ) → jitter k ≤ bound)
      → (retry_loop s call jitter left i slept).slept ≤ slept + left * (3000 + bound)
  unfolding retry_loop
  loop_slept s call jitter zero i slept bound h = ground arith
  loop_slept s call jitter (suc left) i slept bound h =
      let later = slept + delay s i (jitter i) in
      ground (arith, loop_slept s call jitter left (i + 1) later bound h, h i)

  -- The first reply that is not retried, if one comes within the allowed attempts, or else the last
  -- allowed attempt, ends the call, which is made no more than up to that one.
  retries_end :
      {A : Type 0} (s : Settings) (call : ℕ → Reply A) (jitter : ℕ → ℕ) (m : ℕ)
      → ((k : ℕ) → k < m → settles (call k) ≡ false)
      → m ≤ s.transient_max_retries
      → (settles (call m) ≡ true) ⊎ (m ≡ s.transient_max_retries)
      → ((with_retries s call jitter).ending ≡ ending_of (call m))
        × ((with_retries s call jitter).attempts ≡ m + 1)
  unfolding with_retries
  retries_end s call jitter m before h at_m =
      let here : (k : ℕ) → call (0 + k) ≡ call k = λ k. ap call (omega arith) in
      let (ends, made) =
        loop_attempts s call jitter s.transient_max_retries 0 0 m
          (λ k hk. ap settles (here k) ∙ before k hk) h
          (elim at_m [ inl e ↦ inl (ap settles (here m) ∙ e) | inr e ↦ inr e ]) in
      (ends ∙ ap ending_of (here m), made ∙ omega arith)

  -- With a jitter of at most 120 milliseconds, a call sleeps at most 3.12 seconds for each retry that
  -- the settings allow.
  retries_sleep :
      {A : Type 0} (s : Settings) (call : ℕ → Reply A) (jitter : ℕ → ℕ)
      → ((k : ℕ) → jitter k ≤ 120)
      → (with_retries s call jitter).slept ≤ s.transient_max_retries * 3120
  unfolding with_retries
  retries_sleep s call jitter h =
      let slept = loop_slept s call jitter s.transient_max_retries 0 0 120 h in omega (arith, slept)

  -- A source document whose lookup only gets missing responses is asked for on every allowed attempt,
  -- and the lookup then takes the failure for a permanent one, where the lower case of the error's two
  -- texts is as for ASCII.
  empty_responses_fail :
      (s : Settings) (call : ℕ → Reply (Option Fields)) (jitter : ℕ → ℕ)
      → ((k : ℕ) → call k ≡ empty_response)
      → py.lower "RuntimeError" ≡ "runtimeerror"
      → py.lower "supabase_empty_response:load_source_document"
        ≡ "supabase_empty_response:load_source_document"
      → (load_of (with_retries s call jitter).ending ≡ permanent_error)
        × ((with_retries s call jitter).attempts ≡ s.transient_max_retries + 1)
  unfolding load_of is_transient_supabase_transport_error contains
  empty_responses_fail s call jitter all lower_name lower_text =
      let (ends, made) =
        retries_end s call jitter s.transient_max_retries (λ k hk. ap settles (all k)) (omega arith)
          (inr refl) in
      (rw (ends, all s.transient_max_retries, lower_name, lower_text) refl, made)
