-- ===== src/Ingestion/Tests.antt =====
-- A tenant at its limit.
use cire_rag.Base.{ℕ, ◌+◌, ◌-◌, ◌*◌, ◌/◌, List, [], ◌∷◌}
use cire_rag.Ingestion.Backpressure.{DocumentRow, Settings}

abbrev settings : Settings
settings = record { max_pending = 1; docs_per_minute_per_worker = 2; worker_concurrency = 3 }

abbrev rows : List DocumentRow
rows =
    record { institution_id = "acme"; status = "queued" }
    ∷ record { institution_id = "other"; status = "queued" }
    ∷ record { institution_id = "acme"; status = "processed" }
    ∷ []

-- The exact quotient, rounded up.
abbrev estimate : ℕ → ℕ → ℕ
estimate pending throughput = (pending * 60 + throughput - 1) / throughput
