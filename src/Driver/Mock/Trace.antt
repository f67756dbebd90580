-- ===== src/Driver/Mock/Trace.antt =====
-- The calls that an execution makes, on the driver that records them.
use burble.Base.{
  inl, inr, ℕ, ◌*◌, List, [], ◌∷◌, ◌++◌, append_assoc, append-nil, Option, some, Str, codes, Result,
  ok, ◌≡◌, refl, ap, ◌∙◌, if◌then◌else◌, lookup, hash_insert, Bool-cases,
}
use burble.Driver.Executor.{
  ExecOpts, ExecReport, Progress, start, after_wait, execute_op, execute_ops, execute, or_default,
  network_created, volume_created, image_built, image_pulled, container_started,
}
use burble.Driver.Executor.Outcome.{Reports, reports}
use burble.Driver.Executor.Report.{execute_ops-Advances}
use burble.Driver.Healthcheck.{wait_healthy, poll_from, settled, second, timeout_of}
use burble.Driver.Mock.{MockCall, MockDriver, new_mock, mock_driver}
use burble.Driver.Types.{DriverError}
use burble.Plan.Ops.{Op, Plan}

-- The containers that are known by an identifier, and the calls of each operation: one, or none if it
-- is skipped.
abbrev pub known : Op → List (Str × Str) → List (Str × Str)
known (Op.run_container spec) ids =
    hash_insert spec.service (codes "mock_" ++ spec.container_name) ids
known op ids = ids

abbrev pub calls_of : ExecOpts → List (Str × Str) → Op → List MockCall
calls_of opts ids (Op.create_network spec) = MockCall.create_network spec ∷ []
calls_of opts ids (Op.create_volume spec) = MockCall.create_volume spec ∷ []
calls_of opts ids (Op.build_image spec) = if opts.no_build then [] else MockCall.build spec ∷ []
calls_of opts ids (Op.pull_image spec) = if opts.no_pull then [] else MockCall.pull spec.image ∷ []
calls_of opts ids (Op.run_container spec) = MockCall.run spec ∷ []
calls_of opts ids (Op.wait_healthy spec) =
    MockCall.inspect (or_default spec.container_name (lookup spec.service ids)) ∷ []
calls_of opts ids (Op.stop_container spec) =
    MockCall.stop spec.container_name (spec.timeout_secs * second) ∷ []
calls_of opts ids (Op.remove_container spec) = MockCall.rm spec.container_name spec.force ∷ []

abbrev pub trace : ExecOpts → List (Str × Str) → List Op → List MockCall
trace opts ids [] = []
trace opts ids (op ∷ ops) = calls_of opts ids op ++ trace opts (known op ids) ops

module _ {IoError JsonError Stream : Type 0} (to_string : DriverError IoError JsonError → Str)
    (empty_stream : Stream) (now : MockDriver IoError JsonError → ℕ)
    (sleep : ℕ → MockDriver IoError JsonError → MockDriver IoError JsonError)
    (opts : ExecOpts) where
  abbrev with_calls : List MockCall → MockDriver IoError JsonError
  with_calls calls = record (new_mock IoError JsonError) { calls = calls }

  abbrev Advanced :
      Op
      → Progress
      → List MockCall
      → Option (Result (DriverError IoError JsonError) Progress × MockDriver IoError JsonError)
      → Type 0
  Advanced op p calls r =
      (p' : Progress) × (p'.container_ids ≡ known op p.container_ids)
      × (r ≡ some (ok p', with_calls (calls ++ calls_of opts p.container_ids op)))

  module _ (timeout : ℕ)
      (fits : timeout_of (or_default 0 opts.healthcheck_start_period) (30 * second) 3
        ≡ some timeout) where
    mock_wait :
        (cid service : Str) (start_period : ℕ) (p : Progress) (calls : List MockCall)
        → timeout_of start_period (30 * second) 3 ≡ some timeout
        → after_wait
            (wait_healthy
              (mock_driver to_string empty_stream).inspect
              now
              sleep
              cid
              service
              start_period
              (30 * second)
              3
              (with_calls calls))
            (λ _. p)
          ≡ some (ok p, with_calls (calls ++ MockCall.inspect cid ∷ []))
    unfolding wait_healthy mock_driver poll_from settled
    mock_wait cid service start_period p calls e = rw (e, wait_healthy) refl

    execute_op-Advanced :
        (op : Op) (p : Progress) (calls : List MockCall)
        → Advanced op p calls
            (execute_op (mock_driver to_string empty_stream) now sleep opts op p (with_calls calls))
    unfolding execute_op mock_driver lookup
    execute_op-Advanced (Op.create_network spec) p calls = (network_created p, refl, refl)
    execute_op-Advanced (Op.create_volume spec) p calls = (volume_created p, refl, refl)
    execute_op-Advanced (Op.build_image spec) p calls = elim (Bool-cases opts.no_build) [
      | inl skip ↦ (p, refl, rw (skip, append-nil calls) refl)
      | inr build ↦ (image_built p, refl, rw build refl)
    ]
    execute_op-Advanced (Op.pull_image spec) p calls = elim (Bool-cases opts.no_pull) [
      | inl skip ↦ (p, refl, rw (skip, append-nil calls) refl)
      | inr pull ↦ (image_pulled p, refl, rw pull refl)
    ]
    execute_op-Advanced (Op.run_container spec) p calls =
        (container_started spec.service (codes "mock_" ++ spec.container_name) p, refl, refl)
    execute_op-Advanced (Op.wait_healthy spec) p calls = (
      p,
      refl,
      mock_wait (or_default spec.container_name (lookup spec.service p.container_ids)) spec.service
          (or_default 0 opts.healthcheck_start_period) p calls fits,
    )
    execute_op-Advanced (Op.stop_container spec) p calls = (p, refl, refl)
    execute_op-Advanced (Op.remove_container spec) p calls = (p, refl, refl)

    abbrev Recorded : List Op → Progress → List MockCall → Type 0
    Recorded ops p calls =
        (p' : Progress) × (execute_ops (mock_driver to_string empty_stream) now sleep opts ops p
            (with_calls calls)
          ≡ some (ok p', with_calls (calls ++ trace opts p.container_ids ops)))

    reassociate :
        (op : Op) (ops : List Op) (p q : Progress) (calls : List MockCall)
        → q.container_ids ≡ known op p.container_ids
        → (calls ++ calls_of opts p.container_ids op) ++ trace opts q.container_ids ops
          ≡ calls ++ trace opts p.container_ids (op ∷ ops)
    reassociate op ops p q calls ids = rw ids (
        append_assoc calls (calls_of opts p.container_ids op)
          (trace opts (known op p.container_ids) ops))

    execute_ops-Recorded :
        (ops : List Op) (p : Progress) (calls : List MockCall) → Recorded ops p calls
    unfolding execute_ops
    execute_ops-Recorded [] p calls = (p, rw (append-nil calls) refl)
    execute_ops-Recorded (op ∷ ops) p calls =
        let (q, ids, e) = execute_op-Advanced op p calls in
        let (p', e') = execute_ops-Recorded ops q (calls ++ calls_of opts p.container_ids op) in
        (
          p',
          rw (e, execute_ops)
              (e' ∙ ap (λ t. some (ok p', with_calls t)) (reassociate op ops p q calls ids)),
        )

    -- On a recording driver with no canned responses, if the timeout of the health checks, which the
    -- start period of the options is a part of, overflows no `Duration`, every plan is carried out to its
    -- end, and the calls are, in the order of the plan, one for each operation that is not skipped; the
    -- report counts these operations. A wait for health asks
    -- for the container that the plan has started for the service, or else for the one of that name.
    pub execute-trace :
        (plan : Plan)
        → (report : ExecReport) × (execute
              (mock_driver to_string empty_stream)
              now
              sleep
              opts
              plan
              (new_mock IoError JsonError)
            ≡ some (ok report, with_calls (trace opts [] plan.ops)))
          × Reports opts plan.ops report
    unfolding execute
    execute-trace plan =
        let (p, e) = execute_ops-Recorded plan.ops start [] in
        (
          p.report,
          rw e refl,
          reports (
              execute_ops-Advances (mock_driver to_string empty_stream) now sleep opts plan.ops
                start p _ _ e),
        )
