-- ===== src/Ingestion/Processor/Runs.antt =====
-- `DocumentProcessor.process`: what a run that returns has done.
use cire_rag.Base.Value.{Fields, Python, truthy, text_or_empty}
use cire_rag.Base.{
  any, ℕ, ◌<◌, String, ◌≡◌, refl, Bool, true, false, ◌||◌, List, [], ◌∷◌, ◌++◌, arith, eq_iff,
}
use cire_rag.Ingestion.Batch.{resolve_tenant, resolve_is_global, resolve_storage_path}
use cire_rag.Ingestion.Policy.{value, tenant_isolation_holds}
use cire_rag.Ingestion.Processor.{
  Event, gives, throws, cancels, Ack, status_set, persisted, downloaded, source_cleaned, Run, Done,
  ◌>>=◌, ◌>>◌, effect, require, finally, Dispatch, Settings, Answers, handle_success,
  start_processing, run_strategy, persist_chunks, enrich, pipeline, attempt, status_after,
  is_persisted,
}

-- A strategy's result that may be stored: reported as processed, with chunks.
pub record IsUsable (r : Dispatch) : Type 0 where
  pub reported : r.status ≡ "processed"
  pub counted : 0 < r.chunks_count
  pub present : 0 < r.chunks

pub status_after-append :
    (x : String) (t u : List Event) → status_after x (t ++ u) ≡ status_after (status_after x t) u
status_after-append x [] u = refl
status_after-append x (status_set s ∷ t) u = status_after-append (value s) t u
status_after-append x (persisted n ∷ t) u = status_after-append x t u
status_after-append x (e ∷ t) u = status_after-append x t u

run_strategy_usable :
    (a : Answers) (r : Dispatch)
    → (run_strategy a).0 ≡ gives r
    → (a.dispatch ≡ gives r) × (r.status ≡ "processed") × (0 < r.chunks_count) × (0 < r.chunks)
unfolding run_strategy value
run_strategy_usable a r h = ground (arith, eq_iff r.status "processed")

run_strategy_status : (a : Answers) (x : String) → status_after x (run_strategy a).1 ≡ x
unfolding run_strategy
run_strategy_status a x = ground arith

persist_chunks_status :
    (s : Settings) (a : Answers) (x : String) → status_after x (persist_chunks s a).1 ≡ x
unfolding persist_chunks
persist_chunks_status s a x = ground arith

persist_chunks_stores :
    (s : Settings) (a : Answers) (n : ℕ)
    → (persist_chunks s a).0 ≡ gives n
    → any is_persisted (persist_chunks s a).1 ≡ true
unfolding persist_chunks
persist_chunks_stores s a n h = ground arith

enrich_status : (s : Settings) (a : Answers) (x : String) → status_after x (enrich s a).1 ≡ x
unfolding enrich
enrich_status s a x = ground arith

-- Inversion of a bind that returned.
>>=-gives :
    {A B : Type 0} (m : Run A) (f : A → Run B) (b : B)
    → (m >>= f).0 ≡ gives b
    → (a : A) × (m.0 ≡ gives a) × ((f a).0 ≡ gives b) × ((m >>= f).1 ≡ m.1 ++ (f a).1)
>>=-gives (gives a, t) f b h = (a, refl, h, refl)
>>=-gives (throws, t) f b h = absurd (ground arith)
>>=-gives (cancels, t) f b h = absurd (ground arith)

pub any-append : (p : Event → Bool) (t u : List Event) → any p (t ++ u) ≡ (any p t || any p u)
any-append p [] u = refl
any-append p (e ∷ t) u = ground (arith, any-append p t u)

-- What a finished pipeline has done.
pub record Stored (a : Answers) (x : String) (t : List Event) : Type 0 where
  pub result : Dispatch
  from_strategy : a.dispatch ≡ gives result
  usable : IsUsable result
  pub stored : any is_persisted t ≡ true
  pub final : status_after x t ≡ "processed"

handle_success_status :
    (a : Answers) (x : String)
    → (handle_success a).0 ≡ gives tt
    → status_after x (handle_success a).1 ≡ "processed"
unfolding value
handle_success_status a x h = ground arith

pipeline-Stored :
    (s : Settings) (a : Answers) (x : String)
    → (pipeline s a).0 ≡ gives tt
    → Stored a x (pipeline s a).1
unfolding pipeline
pipeline-Stored s a x h =
    let (r, e1, h1, t1) = >>=-gives (run_strategy a) _ tt h in
    let (n, e2, h2, t2) = >>=-gives (persist_chunks s a) _ tt h1 in
    let (u, e3, h3, t3) = >>=-gives (enrich s a) _ tt h2 in
    let (from, reported, counted, present) = run_strategy_usable a r e1 in
    record {
      result = r;
      from_strategy = from;
      usable = record { reported = reported; counted = counted; present = present };
      stored = rw (t1, any-append, t2, any-append, persist_chunks_stores s a n e2) (ground arith);
      final =
          rw
            (
              t1, status_after-append, run_strategy_status, t2, status_after-append,
              persist_chunks_status, t3, status_after-append, enrich_status,
            )
            (handle_success_status a x h3);
    }

finally-gives :
    (m c : Done) → (finally m c).0 ≡ gives tt → (m.0 ≡ gives tt) × ((finally m c).1 ≡ m.1 ++ c.1)
finally-gives (r, t) (gives v, w) h = (h, refl)
finally-gives m (throws, w) h = absurd (ground arith)
finally-gives m (cancels, w) h = absurd (ground arith)

cleanup_status : (b : Ack) (x : String) → status_after x (effect b source_cleaned).1 ≡ x
cleanup_status (gives u) x = refl
cleanup_status throws x = refl
cleanup_status cancels x = refl

pub require-gives :
    (b : Bool) (m : Done)
    → (require b >> m).0 ≡ gives tt
    → (m.0 ≡ gives tt) × ((require b >> m).1 ≡ m.1)
require-gives true m h = (h, refl)
require-gives false m h = absurd (ground arith)

module _ ⦃py : Python⦄ where
  pub attempt-Stored :
      (s : Settings) (d : Fields) (a : Answers) (x : String)
      → (attempt s d a).0 ≡ gives tt
      → Stored a x (attempt s d a).1
  unfolding attempt
  attempt-Stored s d a x h =
      let (h2, t2) =
        require-gives
          (tenant_isolation_holds (resolve_is_global d) (text_or_empty (resolve_tenant d))) _ h in
      let (h3, t3) = require-gives (truthy (resolve_storage_path d)) _ h2 in
      let (_, e4, h4, t4) = >>=-gives (start_processing a) _ tt h3 in
      let (_, e5, h5, t5) = >>=-gives (effect a.downloaded downloaded) _ tt h4 in
      let (e6, t6) = finally-gives (pipeline s a) (effect a.cleanup source_cleaned) h5 in
      let y =
        status_after (status_after x (start_processing a).1) (effect a.downloaded downloaded).1 in
      let p = pipeline-Stored s a y e6 in
      record {
        result = p.result;
        from_strategy = p.from_strategy;
        usable = p.usable;
        stored =
            rw (t2, t3, t4, any-append, t5, any-append, t6, any-append, p.stored) (ground arith);
        final =
            rw
              (
                t2, t3, t4, status_after-append, t5, status_after-append, t6, status_after-append,
                p.final,
              )
              (cleanup_status a.cleanup "processed");
      }
