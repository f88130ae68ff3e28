-- ===== src/Ingestion/Processor/Laws.antt =====
-- `DocumentProcessor.process`: the status that a document is left with.
use cire_rag.Base.Value.{
  Value, null, dict, Fields, end, field, Python, truthy, get, has_key, text_or_empty,
}
use cire_rag.Base.{
  Option-cases, any, String, ◌≡◌, refl, ◌≢◌, inl, inr, Bool, true, false, some, arith,
}
use cire_rag.Ingestion.Batch.{
  metadata_fields, resolve_tenant, resolve_is_global, resolve_storage_path,
}
use cire_rag.Ingestion.Policy.{tenant_isolation_holds}
use cire_rag.Ingestion.Processor.{
  Event, gives, throws, cancels, Ack, metadata_writable, meta_of, picked_up, is_failed, downloaded,
  source_cleaned, Run, Done, ◌>>=◌, effect, require, finally, except, Settings, Answers,
  handle_error, start_processing, run_strategy, persist_chunks, enrich, pipeline, attempt, process,
}
use cire_rag.Ingestion.Processor.Runs.{any-append}

missing_null : (k : String) (d : Fields) → has_key k d ≡ false → get k d ≡ null
unfolding has_key get
missing_null k end h = refl
missing_null k (field j v r) h = ground (arith, missing_null k r)

writable_meta : (d : Fields) → metadata_writable d ≡ true → meta_of d ≡ some (metadata_fields d)
unfolding metadata_writable meta_of
writable_meta d h = by_value (get "metadata" d) refl
  where
    by_value : (v : Value) → get "metadata" d ≡ v → meta_of d ≡ some (metadata_fields d)
    by_value null e = ground arith
    by_value (dict meta) e = ground arith
    by_value v e = absurd (ground (arith, missing_null "metadata" d))

-- The events of a run hold no mark of a failure.
abbrev Clean : {A : Type 0} → Run A → Type 0
Clean m = any is_failed m.1 ≡ false

>>=-Clean :
    {A B : Type 0} (m : Run A) (f : A → Run B) → Clean m → ((a : A) → Clean (f a)) → Clean (m >>= f)
>>=-Clean (gives a, t) f h k = ground (arith, any-append is_failed t (f a).1, k a)
>>=-Clean (throws, t) f h k = h
>>=-Clean (cancels, t) f h k = h

effect-Clean : (b : Ack) (e : Event) → is_failed e ≡ false → Clean (effect b e)
effect-Clean (gives u) e h = ground (arith, h)
effect-Clean throws e h = refl
effect-Clean cancels e h = refl

require-Clean : (b : Bool) → Clean (require b)
require-Clean true = refl
require-Clean false = refl

finally-Clean : (m c : Done) → Clean m → Clean c → Clean (finally m c)
finally-Clean (r, t) (gives u, w) h k = ground (arith, any-append is_failed t w)
finally-Clean (r, t) (throws, w) h k = ground (arith, any-append is_failed t w)
finally-Clean (r, t) (cancels, w) h k = ground (arith, any-append is_failed t w)

except-Clean : (m c : Done) → Clean m → Clean c → Clean (except m c)
except-Clean (gives u, t) c h k = h
except-Clean (throws, t) (r, w) h k = ground (arith, any-append is_failed t w)
except-Clean (cancels, t) c h k = h

run_strategy-Clean : (a : Answers) → Clean (run_strategy a)
unfolding run_strategy
run_strategy-Clean a = ground arith

persist_chunks-Clean : (s : Settings) (a : Answers) → Clean (persist_chunks s a)
unfolding persist_chunks
persist_chunks-Clean s a = ground arith

enrich-Clean : (s : Settings) (a : Answers) → Clean (enrich s a)
unfolding enrich
enrich-Clean s a = ground arith

pipeline-Clean : (s : Settings) (a : Answers) → Clean (pipeline s a)
unfolding pipeline
pipeline-Clean s a = >>=-Clean (run_strategy a) _ (run_strategy-Clean a) (λ r.
    >>=-Clean (persist_chunks s a) _ (persist_chunks-Clean s a)
      (λ n. >>=-Clean (enrich s a) _ (enrich-Clean s a) (λ u. ground arith)))

module _ ⦃py : Python⦄ (s : Settings) (d : Fields) (a : Answers) where
  attempt-Clean : Clean (attempt s d a)
  unfolding attempt
  attempt-Clean =
      >>=-Clean
        (require (tenant_isolation_holds (resolve_is_global d) (text_or_empty (resolve_tenant d))))
        _ (require-Clean _)
        (λ _. >>=-Clean (require (truthy (resolve_storage_path d))) _ (require-Clean _) (λ _.
          >>=-Clean (start_processing a) _ (ground arith) (λ _.
            >>=-Clean (effect a.downloaded downloaded) _ (effect-Clean a.downloaded downloaded refl)
              (λ _.
                finally-Clean (pipeline s a) (effect a.cleanup source_cleaned) (pipeline-Clean s a)
                  (effect-Clean a.cleanup source_cleaned refl)))))

  handled :
      metadata_writable d ≡ false
      → any is_failed (except (attempt s d a) (handle_error d a)).1 ≡ false
  unfolding handle_error
  handled unwritable =
      except-Clean (attempt s d a) (handle_error d a) attempt-Clean (rw unwritable refl)

  -- A document whose metadata is there and is no dictionary, for instance null, is never marked as
  -- failed, however its run ends.
  pub null_metadata_never_fails :
      metadata_writable d ≡ false → any is_failed (process s d a).1 ≡ false
  unfolding process
  null_metadata_never_fails unwritable = elim (Option-cases (meta_of d)) [
    | inl e ↦ rw (process, e) refl
    | inr (meta, e) ↦ ground (arith, e, handled unwritable)
  ]

  -- Where the metadata is missing or a dictionary, the policy does not raise, and the status of a
  -- failure can be stored and logged, `process` returns unless it is cancelled: a caller cannot tell
  -- a failed document from a processed one.
  pub failure_is_swallowed :
      (picked : Bool)
      → metadata_writable d ≡ true
      → picked_up d (metadata_fields d) ≡ some picked
      → a.error_stored ≡ gives tt
      → a.error_logged ≡ gives tt
      → (process s d a).0 ≢ cancels
      → (process s d a).0 ≡ gives tt
  unfolding process handle_error
  failure_is_swallowed picked writable policy stored logged_ok unstopped =
      ground (arith, writable_meta d writable, unstopped)
