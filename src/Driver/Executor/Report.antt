-- ===== src/Driver/Executor/Report.antt =====
-- What the report of `execute` says of the plan.
use burble.Base.{
  hash_insert, ◌*◌, ℕ, ◌+◌, Bool, true, false, ◌||◌, List, [], ◌∷◌, Option, none, some, Str, Result,
  ok, err, str_eq, ◌≡◌, refl, ap, if◌then◌else◌, contains_key, contains_key-hash_insert, arith,
  subst,
}
use burble.Driver.Executor.{ExecOpts, Progress, start, after, after_wait, execute_op, execute_ops}
use burble.Driver.Healthcheck.{wait_healthy, second}
use burble.Driver.Interface.{Driver}
use burble.Driver.Types.{DriverError}
use burble.Plan.Ops.{Op}

-- How many operations of a kind there are.
abbrev pub tally : (Op → Bool) → List Op → ℕ
tally kind [] = 0
tally kind (op ∷ ops) = (if kind op then 1 else 0) + tally kind ops

abbrev pub is_network : Op → Bool
is_network (Op.create_network spec) = true
is_network op = false

abbrev pub is_volume : Op → Bool
is_volume (Op.create_volume spec) = true
is_volume op = false

abbrev pub is_build : Op → Bool
is_build (Op.build_image spec) = true
is_build op = false

abbrev pub is_pull : Op → Bool
is_pull (Op.pull_image spec) = true
is_pull op = false

-- Some operation runs the service.
unfoldable pub runs : Str → List Op → Bool
unfolding str_eq
runs service [] = false
runs service (Op.run_container spec ∷ ops) = str_eq spec.service service || runs service ops
runs service (op ∷ ops) = runs service ops

abbrev pub unless : Bool → ℕ → ℕ
unless true n = 0
unless false n = n

-- The progress made by operations that succeed.
pub record Advances (opts : ExecOpts) (ops : List Op) (p p' : Progress) : Type 0 where
  pub networks : p'.report.networks_created ≡ p.report.networks_created + tally is_network ops
  pub volumes : p'.report.volumes_created ≡ p.report.volumes_created + tally is_volume ops
  pub builds :
      p'.report.images_built ≡ p.report.images_built + unless opts.no_build (tally is_build ops)
  pub pulls :
      p'.report.images_pulled ≡ p.report.images_pulled + unless opts.no_pull (tally is_pull ops)
  pub containers :
      (s : Str)
      → contains_key s p'.report.containers ≡ (runs s ops || contains_key s p.report.containers)
  pub agree : p.report.containers ≡ p.container_ids → p'.report.containers ≡ p'.container_ids

runs-cons :
    (s : Str) (op : Op) (ops : List Op) → runs s (op ∷ ops) ≡ (runs s (op ∷ []) || runs s ops)
unfolding runs
runs-cons s (Op.run_container spec) ops = ground arith
runs-cons s (Op.create_network spec) ops = refl
runs-cons s (Op.create_volume spec) ops = refl
runs-cons s (Op.build_image spec) ops = refl
runs-cons s (Op.pull_image spec) ops = refl
runs-cons s (Op.wait_healthy spec) ops = refl
runs-cons s (Op.stop_container spec) ops = refl
runs-cons s (Op.remove_container spec) ops = refl

none_done : (opts : ExecOpts) (p : Progress) → Advances opts [] p p
unfolding runs
none_done opts p = record {
  networks = omega arith;
  volumes = omega arith;
  builds = ground arith;
  pulls = ground arith;
  containers = λ s. refl;
  agree = λ h. h;
}

module _ {opts : ExecOpts} {p q r : Progress} where
  both :
      (op : Op) (ops : List Op)
      → Advances opts (op ∷ []) p q
      → Advances opts ops q r
      → Advances opts (op ∷ ops) p r
  both op ops first rest = record {
    networks = ground (arith, first.networks, rest.networks);
    volumes = ground (arith, first.volumes, rest.volumes);
    builds = ground (arith, first.builds, rest.builds);
    pulls = ground (arith, first.pulls, rest.pulls);
    containers = λ s. ground (arith, first.containers s, rest.containers s, runs-cons s op ops);
    agree = λ h. rest.agree (first.agree h);
  }

ok-inj :
    {E B World : Type 0} (o : Option (Result E B × World)) (b b' : B) (w w' : World)
    → o ≡ some (ok b, w)
    → o ≡ some (ok b', w')
    → b ≡ b'
ok-inj o b b' w w' is is' = cc

module _ {World IoError JsonError : Type 0} {A B : Type 0} where
  after-ok :
      (r : Result (DriverError IoError JsonError) A × World) (k : A → B) (b : B) (w' : World)
      → after r k ≡ some (ok b, w')
      → (a : A) × (k a ≡ b)
  after-ok (ok a, w) k b w' e = (a, cc)
  after-ok (err x, w) k b w' e = cc

  after_wait-ok :
      (r : Option (Result (DriverError IoError JsonError) A × World)) (k : A → B) (b : B)
      (w' : World)
      → after_wait r k ≡ some (ok b, w')
      → (a : A) × (k a ≡ b)
  after_wait-ok none k b w' e = cc
  after_wait-ok (some r) k b w' e = after-ok r k b w' e

module _ {World IoError JsonError Stream : Type 0} (driver : Driver World IoError JsonError Stream)
    (now : World → ℕ) (sleep : ℕ → World → World) (opts : ExecOpts) where
  abbrev Step : Op → Progress → Progress → Type 0
  Step op p p' = Advances opts (op ∷ []) p p'

  same :
      {op : Op} {p p' : Progress} {A : Type 0} {k : A → Progress}
      → ((a : A) → Step op p (k a))
      → (a : A) × (k a ≡ p')
      → Step op p p'
  same {op = op} {p = p} step (a, e) = subst (λ q. Step op p q) e (step a)

  -- An operation that is neither counted nor recorded.
  idle :
      (op : Op) (p : Progress)
      → is_network op ≡ false
      → is_volume op ≡ false
      → unless opts.no_build (tally is_build (op ∷ [])) ≡ 0
      → unless opts.no_pull (tally is_pull (op ∷ [])) ≡ 0
      → ((s : Str) → runs s (op ∷ []) ≡ false)
      → Step op p p
  idle op p n v b l r = record {
    networks = rw n (omega arith);
    volumes = rw v (omega arith);
    builds = rw b (omega arith);
    pulls = rw l (omega arith);
    containers = λ s. rw (r s) refl;
    agree = λ h. h;
  }

  branch :
      {op : Op} {p p' : Progress} {A : Type 0} {k : A → Progress} (w w' : World) (skip : Bool)
      (r : Result (DriverError IoError JsonError) A × World)
      → (skip ≡ true → Step op p p)
      → (skip ≡ false → (a : A) → Step op p (k a))
      → (if skip then some (ok p, w) else after r k) ≡ some (ok p', w')
      → Step op p p'
  branch {op = op} {p = p} {p' = p'} w w' true r skipped done e =
      subst (λ q. Step op p q) (ok-inj _ p p' w w' refl e) (skipped refl)
  branch {p' = p'} {k = k} w w' false r skipped done e = same (done refl) (after-ok r k p' w' e)

  execute_op-Advances :
      (op : Op) (p p' : Progress) (w w' : World)
      → execute_op driver now sleep opts op p w ≡ some (ok p', w')
      → Step op p p'
  unfolding execute_op runs
  execute_op-Advances (Op.create_network spec) p p' w w' e =
      same
        (λ _. record {
          networks = ground arith;
          volumes = ground arith;
          builds = ground arith;
          pulls = ground arith;
          containers = λ s. refl;
          agree = λ h. h;
        })
        (after-ok (driver.create_network spec w) _ p' w' e)
  execute_op-Advances (Op.create_volume spec) p p' w w' e =
      same
        (λ _. record {
          networks = ground arith;
          volumes = ground arith;
          builds = ground arith;
          pulls = ground arith;
          containers = λ s. refl;
          agree = λ h. h;
        })
        (after-ok (driver.create_volume spec w) _ p' w' e)
  execute_op-Advances (Op.build_image spec) p p' w w' e =
      branch w w' opts.no_build (driver.build spec w)
        (λ off.
          idle (Op.build_image spec) p refl refl (ground (arith, off)) (ground (arith, off))
            (λ s. refl))
        (λ off _. record {
          networks = ground arith;
          volumes = ground arith;
          builds = ground (arith, off);
          pulls = ground (arith, off);
          containers = λ s. refl;
          agree = λ h. h;
        })
        e
  execute_op-Advances (Op.pull_image spec) p p' w w' e =
      branch w w' opts.no_pull (driver.pull spec.image w)
        (λ off.
          idle (Op.pull_image spec) p refl refl (ground (arith, off)) (ground (arith, off))
            (λ s. refl))
        (λ off _. record {
          networks = ground arith;
          volumes = ground arith;
          builds = ground (arith, off);
          pulls = ground (arith, off);
          containers = λ s. refl;
          agree = λ h. h;
        })
        e
  execute_op-Advances (Op.run_container spec) p p' w w' e =
      same
        (λ cid. record {
          networks = ground arith;
          volumes = ground arith;
          builds = ground arith;
          pulls = ground arith;
          containers =
              λ s. ground (arith, contains_key-hash_insert spec.service s cid p.report.containers);
          agree = λ h. ap (λ m. hash_insert spec.service cid m) h;
        })
        (after-ok (driver.run spec w) _ p' w' e)
  execute_op-Advances (Op.wait_healthy spec) p p' w w' e =
      same (λ _. idle (Op.wait_healthy spec) p refl refl (ground arith) (ground arith) (λ s. refl))
        (after_wait-ok (wait_healthy driver.inspect now sleep _ spec.service _ (30 * second) 3 w) _
          p' w' e)
  execute_op-Advances (Op.stop_container spec) p p' w w' e =
      same
        (λ _. idle (Op.stop_container spec) p refl refl (ground arith) (ground arith) (λ s. refl))
        (after-ok (driver.stop spec.container_name (spec.timeout_secs * second) w) _ p' w' e)
  execute_op-Advances (Op.remove_container spec) p p' w w' e =
      same
        (λ _. idle (Op.remove_container spec) p refl refl (ground arith) (ground arith) (λ s. refl))
        (after-ok (driver.rm spec.container_name spec.force w) _ p' w' e)

  pub execute_ops-Advances :
      (ops : List Op) (p p' : Progress) (w w' : World)
      → execute_ops driver now sleep opts ops p w ≡ some (ok p', w')
      → Advances opts ops p p'
  unfolding execute_ops runs
  execute_ops-Advances [] p p' w w' e =
      subst (λ q. Advances opts [] p q) (ok-inj _ p p' w w' refl e) (none_done opts p)
  execute_ops-Advances (op ∷ ops) p p' w w' e =
      go (λ q v. execute_ops-Advances ops q p' v w') (execute_op driver now sleep opts op p w) refl
        e
    where
      go :
          ((q : Progress) (v : World)
            → execute_ops driver now sleep opts ops q v ≡ some (ok p', w')
            → Advances opts ops q p')
          → (r : Option (Result (DriverError IoError JsonError) Progress × World))
          → execute_op driver now sleep opts op p w ≡ r
          → (elim r as (λ _. Option (Result (DriverError IoError JsonError) Progress × World)) [
            | none ↦ none
            | some (err e, w') ↦ some (err e, w')
            | some (ok p', w') ↦ execute_ops driver now sleep opts ops p' w'
          ])
            ≡ some (ok p', w')
          → Advances opts (op ∷ ops) p p'
      go rest none is e = cc
      go rest (some (err x, v)) is e = cc
      go rest (some (ok q, v)) is e = both op ops (execute_op-Advances op p q w v is) (rest q v e)

  -- When an execution succeeds, the containers of the report are those that a later wait for health
  -- looks up.
  pub execute_ops-agree :
      (ops : List Op) (p : Progress) (w w' : World)
      → execute_ops driver now sleep opts ops start w ≡ some (ok p, w')
      → p.report.containers ≡ p.container_ids
  execute_ops-agree ops p w w' e = (execute_ops-Advances ops start p w w' e).agree refl
