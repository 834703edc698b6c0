-- ===== src/Webhooks/Tests.antt =====
-- Deliveries under the retry policy.
use conversa_forge.Prelude.{ℕ, ◌+◌, ◌*◌, ◌≤◌, ◌≡◌, true, false, List, [], ◌∷◌, none, some, arith}
use conversa_forge.Webhooks.Dispatch.{pending, DeliverJob, SendResult, Dispatch, run_jobs}
use conversa_forge.Webhooks.Dispatch.Laws.{IsCounted, run_jobs-IsCounted}
use conversa_forge.Webhooks.Retry.{refused, failed, deliver}
use conversa_forge.Webhooks.Retry.Laws.{IsFinal, deliver_decides, deliver_refused}

abbrev spread : ℕ → ℕ → ℕ
spread base jitter = base

deliver_decides_example :
    let d = deliver spread 7 (λ n. refused none) (λ n. 0) 2 5 1 1000 in
    (d.0 ≤ 8) × IsFinal spread d.2
deliver_decides_example =
    deliver_decides spread 7 (λ n. refused none) (λ n. 0) 2 5 1 1000 (omega arith) (omega arith)

deliver_refused_example :
    let d = deliver spread 7 (λ n. refused (some 500)) (λ n. 0) 2 3 1 1000 in
    (d.0 ≡ 8)
    × (d.2.status ≡ failed)
    × (d.2.failure_count ≡ 3)
    × (d.2.disable ≡ true)
    × (1000 + 32 * 3600000 ≤ d.1)
    × (d.1 ≤ 1000 + 36 * 3600000)
deliver_refused_example =
    deliver_refused spread (λ n. some 500) (λ n. 0) 2 3 1000 (λ base j. (omega arith, omega arith))

-- A delivery whose first attempt is refused, whose second succeeds, and whose jobs come twice.
abbrev start : Dispatch
start = record {
  delivery = some (record {
    status = pending;
    attempts = 0;
    last_status_code = none;
    next_attempt_at = some 0;
    delivered_at = none;
  });
  subscription = record { active = true; failure_count = 2; disabled_at = none };
  log = [];
  queue = [];
  posted = [];
}

abbrev job : ℕ → DeliverJob
job n = record { attempt = n; manual = false }

abbrev answer : ℕ → SendResult
answer code = record { status_code = some code; failed = false }

abbrev jobs : List (ℕ × DeliverJob × SendResult × ℕ)
jobs = (10, job 1, answer 500, 0) ∷ (11, job 1, answer 200, 0) ∷ (70000, job 2, answer 204, 0) ∷ []

start-IsCounted : IsCounted start
start-IsCounted = record { below = tt; descending = tt }

run_jobs-IsCounted_example : IsCounted (run_jobs spread 5 jobs start)
run_jobs-IsCounted_example = run_jobs-IsCounted spread 5 jobs start start-IsCounted
