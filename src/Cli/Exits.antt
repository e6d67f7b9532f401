-- ===== src/Cli/Exits.antt =====
-- What the exit codes of `main` of monitor_agent/cli.py stand for.
use employee_tracker.Common.{
  ◌≡◌, refl, sym, ◌∙◌, subst, ℕ, String, Bool, true, false, not, Result, ok, err, Error, ◌>>=◌,
  ◌>>◌, Bool-cases, Result-cases, inl, inr, ◌⊎◌, ◌<◌, List, [], ◌∷◌, All, all, length, arith,
  if◌then◌else◌,
}
use employee_tracker.Config.{AgentConfig}
use employee_tracker.Models.{CollectionBatch, CollectorResult, CollectorStatus, CycleResult}
use employee_tracker.Payload.{event_matches}
use employee_tracker.Identity.{is_value_error}
use employee_tracker.Spool.{check_limits}
use employee_tracker.Cli.Command.{
  Parts, Command, run, once, check_config_command, health, version, prepare_config, create_runtime,
  has_failed, aggregate_failure, gather, collect_once, run_command, once_offline, once_online,
  once_command, health_command, dispatch, exit_code, main,
}

-- There is a result, and every one is of a collector that failed or timed out.
pub record NothingWorked (rs : List CollectorResult) : Type 0 where
  pub some_result : 0 < length rs
  pub all_failed :
      All (λ r. (r.status ≡ CollectorStatus.failed) ⊎ (r.status ≡ CollectorStatus.timed_out)) rs

failed_status :
    (s : CollectorStatus)
    → has_failed s ≡ true
    → (s ≡ CollectorStatus.failed) ⊎ (s ≡ CollectorStatus.timed_out)
failed_status CollectorStatus.failed h = inl refl
failed_status CollectorStatus.timed_out h = inr refl
failed_status CollectorStatus.success h = cc
failed_status CollectorStatus.partial h = cc
failed_status CollectorStatus.disabled h = cc

List-cases :
    (rs : List CollectorResult)
    → (rs ≡ []) ⊎ ((q : CollectorResult) × (qs : List CollectorResult) × (rs ≡ q ∷ qs))
List-cases [] = inl refl
List-cases (r ∷ rs) = inr (r, rs, refl)

failed_statuses :
    (rs : List CollectorResult)
    → all (λ r. has_failed r.status) rs ≡ true
    → All (λ r. (r.status ≡ CollectorStatus.failed) ⊎ (r.status ≡ CollectorStatus.timed_out)) rs
failed_statuses [] h = tt
failed_statuses (r ∷ rs) h =
    (failed_status r.status (ground arith), failed_statuses rs (ground arith))

aggregate_failure-NothingWorked :
    (batch : CollectionBatch) → aggregate_failure batch ≡ true → NothingWorked batch.results
unfolding aggregate_failure
aggregate_failure-NothingWorked batch h = elim (List-cases batch.results) [
  | inl e ↦ absurd (ground arith)
  | inr (r, rs, e) ↦
      rw e
        (record { some_result = omega arith; all_failed = failed_statuses (r ∷ rs) (ground arith) })
]

-- 0 and 2 of any command, 3 and 4 only for these reasons.
pub data Explained (p : Parts) : Command → ℕ → Type 0 where
  fine : {c : Command} → Explained p c 0
  refused : {c : Command} → Explained p c 2
  nothing_collected :
      (event : String) (batch : CollectionBatch)
      → event_matches event ≡ true
      → p.collect_all ≡ ok batch
      → NothingWorked batch.results
      → Explained p (once event true) 3
  not_delivered :
      (event : String) (result : CycleResult)
      → event_matches event ≡ true
      → p.run_cycle event ≡ ok result
      → result.delivered ≡ false
      → Explained p (once event false) 4

-- What holds of every value that is returned.
record Returns {A : Type 0} (P : A → Type 0) (r : Result A) : Type 0 where
  at : (a : A) → r ≡ ok a → P a

module _ {A : Type 0} {P : A → Type 0} where
  Returns-ok : (a : A) → P a → Returns P (ok a)
  Returns-ok a p = record { at = λ b e. let same : a ≡ b = cc in subst P same p }

  Returns-err : (e : Error) → Returns P (err e)
  Returns-err e = record { at = λ b r. cc }

  Returns-if :
      (b : Bool) (r t : Result A) → Returns P r → Returns P t → Returns P (if b then r else t)
  Returns-if true r t p q = p
  Returns-if false r t p q = q

  Returns-bind :
      {B : Type 0} (r : Result B) (f : B → Result A)
      → ((b : B) → r ≡ ok b → Returns P (f b))
      → Returns P (r >>= f)
  Returns-bind (ok b) f q = q b refl
  Returns-bind (err e) f q = Returns-err e

module _ (p : Parts) where
  run_command-Explained : (c : AgentConfig) → Returns (Explained p run) (run_command p c)
  unfolding run_command
  run_command-Explained c =
      Returns-bind (create_runtime p c) _
        λ t _. Returns-bind (p.signals >> p.run) _ λ _ _. Returns-ok 0 fine

  health_command-Explained : (c : AgentConfig) → Returns (Explained p health) (health_command p c)
  unfolding health_command
  health_command-Explained c = Returns-bind (gather p c) _ λ batch _.
      Returns-bind (check_limits c.spool_max_bytes c.spool_max_age_sec) _
        λ _ _. Returns-bind p.stats _ λ stats _. Returns-bind p.print _ λ _ _. Returns-ok 0 fine

  once_online-Explained :
      (c : AgentConfig) (event : String)
      → event_matches event ≡ true
      → Returns (Explained p (once event false)) (once_online p c event)
  unfolding once_online
  once_online-Explained c event named = Returns-bind (create_runtime p c) _ λ t _.
      Returns-bind (p.run_cycle event) _ λ result cycled. Returns-bind p.close _ λ _ _.
        elim (Bool-cases result.delivered) [
          | inl e ↦ rw e (Returns-ok 0 fine)
          | inr e ↦ rw e (Returns-ok 4 (not_delivered event result named cycled e))
        ]

  gather-told : (c : AgentConfig) → Returns (λ batch. p.collect_all ≡ ok batch) (gather p c)
  unfolding gather
  gather-told c =
      Returns-bind (p.resolve_identity >> p.build_collectors c) _
        λ _ _. record { at = λ batch e. e }

  collect_once-told :
      (c : AgentConfig)
      → Returns
          (λ a.
            (batch : CollectionBatch) × (p.collect_all ≡ ok batch)
            × (a.1 ≡ aggregate_failure batch))
          (collect_once p c)
  unfolding collect_once
  collect_once-told c = Returns-bind (gather p c) _ λ batch gathered.
      Returns-bind (p.build_payload batch) _ λ payload _.
        Returns-ok (payload, aggregate_failure batch)
          (batch, (gather-told c).at batch gathered, refl)

  once_offline-Explained :
      (c : AgentConfig) (event : String)
      → event_matches event ≡ true
      → Returns (Explained p (once event true)) (once_offline p c)
  unfolding once_offline
  once_offline-Explained c event named = elim (Result-cases (collect_once p c)) [
    | inl ((payload, failure), e) ↦
        let told = (collect_once-told c).at (payload, failure) e in
        rw (e, once_offline)
          (Returns-bind p.print _ λ _ _. elim (Bool-cases failure) [
            | inl b ↦ rw b (
                Returns-ok 3 (
                  nothing_collected event told.0 named told.1
                    (aggregate_failure-NothingWorked told.0 (sym told.2 ∙ b))))
            | inr b ↦ rw b (Returns-ok 0 fine)
          ])
    | inr (x, e) ↦
        rw (e, once_offline)
          (Returns-if (is_value_error x.class) _ _ (Returns-ok 2 refused) (Returns-err x))
  ]

  once_command-Explained :
      (c : AgentConfig) (event : String) (no_transmit : Bool)
      → Returns (Explained p (once event no_transmit)) (once_command p c event no_transmit)
  unfolding once_command
  once_command-Explained c event no_transmit = elim (Bool-cases (event_matches event)) [
    | inl e ↦
        rw e
          (elim no_transmit
            as (λ b.
              Returns (Explained p (once event b))
                (if b then once_offline p c else once_online p c event)) [
                  | true ↦ once_offline-Explained c event e
                  | false ↦ once_online-Explained c event e
                ])
    | inr e ↦ rw e (Returns-ok 2 refused)
  ]

  dispatch-Explained : (c : Command) → Returns (Explained p c) (dispatch p c)
  unfolding dispatch
  dispatch-Explained run = Returns-bind (prepare_config p true) _ λ c _. run_command-Explained c
  dispatch-Explained (once event no_transmit) =
      Returns-bind (prepare_config p (not no_transmit)) _
        λ c _. once_command-Explained c event no_transmit
  dispatch-Explained check_config_command =
      Returns-bind (prepare_config p true) _ λ c _. Returns-bind p.print _ λ _ _. Returns-ok 0 fine
  dispatch-Explained health =
      Returns-bind (prepare_config p true) _ λ c _. health_command-Explained c
  dispatch-Explained version = Returns-ok 0 fine

  exit_code-Explained :
      (c : Command) (r : Result ℕ)
      → Returns (Explained p c) r
      → Returns (Explained p c) (exit_code r)
  unfolding exit_code
  exit_code-Explained c (ok n) q = q
  exit_code-Explained c (err e) q = Returns-if _ _ _ (Returns-ok 2 refused) (Returns-err e)

  main-Returns : (c : Command) → Returns (Explained p c) (main p c)
  unfolding main
  main-Returns version = Returns-bind p.print _ λ _ _. Returns-ok 0 fine
  main-Returns run = exit_code-Explained run _ (dispatch-Explained run)
  main-Returns (once event b) =
      exit_code-Explained (once event b) _ (dispatch-Explained (once event b))
  main-Returns check_config_command =
      exit_code-Explained check_config_command _ (dispatch-Explained check_config_command)
  main-Returns health = exit_code-Explained health _ (dispatch-Explained health)

  -- If `main` returns an exit code, then it is 0 or 2, or 3 and the command was `once` for a valid
  -- event without a transmission and every result, one at least, has the status failed or timed out,
  -- or 4 and the command was `once` for a valid event and the cycle did not deliver it.
  pub main-Explained : (c : Command) (n : ℕ) → main p c ≡ ok n → Explained p c n
  main-Explained c n = (main-Returns c).at n
