-- ===== src/Cli/Commands/Down.antt =====
-- The calls that `down` makes, on the driver that records them.
use mathlib.Core.List.{reverse}
use burble.Base.{
  ℕ, ◌*◌, false, List, [], ◌∷◌, ◌++◌, append_assoc, append-nil, Str, ok, ◌≡◌, refl, ap, ◌∙◌,
}
use burble.Cli.Commands.{remove_all, removed, down}
use burble.Driver.Healthcheck.{second}
use burble.Driver.Mock.{MockCall, MockDriver, new_mock, mock_driver, set_ps_response}
use burble.Driver.Types.{ContainerSummary, DriverError}
use burble.Plan.Ops.{Plan}

-- Each container is stopped and then removed.
abbrev pub removals : (grace : ℕ) → List ContainerSummary → List MockCall
removals grace [] = []
removals grace (c ∷ cs) = MockCall.stop c.id grace ∷ MockCall.rm c.id false ∷ removals grace cs

module _ {IoError JsonError Stream : Type 0} (to_string : DriverError IoError JsonError → Str)
    (empty_stream : Stream) (containers : List ContainerSummary) where
  -- A recording driver that finds the containers.
  abbrev pub finding : List MockCall → MockDriver IoError JsonError
  finding calls = record (set_ps_response (ok containers) (new_mock IoError JsonError)) {
    calls = calls;
  }

  remove_all-removals :
      (grace : ℕ) (cs : List ContainerSummary) (calls : List MockCall)
      → remove_all (mock_driver to_string empty_stream) grace cs (finding calls)
        ≡ (ok tt, finding (calls ++ removals grace cs))
  unfolding remove_all mock_driver
  remove_all-removals grace [] calls = rw (append-nil calls) refl
  remove_all-removals grace (c ∷ cs) calls =
      remove_all-removals grace cs
        ((calls ++ MockCall.stop c.id grace ∷ []) ++ MockCall.rm c.id false ∷ [])
      ∙ ap (λ t. (ok tt, finding t)) (simp append_assoc)

  -- `down` asks for the containers of the project, and stops and removes each of them, the last one first,
  -- with the grace of the command line.
  pub down-removals :
      (plan : Plan) (timeout : ℕ)
      → down (mock_driver to_string empty_stream) plan timeout false (finding []) ≡ (
        ok tt,
        finding (MockCall.ps plan.project_name ∷ removals (timeout * second) (reverse containers)),
      )
  unfolding down removed mock_driver
  down-removals plan timeout =
      remove_all-removals (timeout * second) (reverse containers)
        (MockCall.ps plan.project_name ∷ [])
