-- ===== src/Database/Migrations/Runs.antt =====
-- migrations/env.py: a run of the migrations, on the calls of alembic and of the engine that it
-- makes.
use fastapi_starter.Prelude.{◌≡◌, refl, String}
use fastapi_starter.Domain.Errors.{Error, Result, ok, err}
use fastapi_starter.Exec.{Exec, modify, ◌>>◌}

-- The keyword arguments of `context.configure`; `target_metadata` is always that of `Base`.
pub data Configuration : Type 0 where
  offline : String → Configuration
  online : Configuration

-- The calls, on a state of theirs. `run_migrations` and `connect` may raise.
pub record Alembic (X : Type 0) : Type 0 where
  pub configure : Configuration → X → X
  pub begin_transaction : X → X
  pub commit : X → X
  pub rollback : X → X
  pub run_migrations : Exec X (Unit {0})
  pub connect : Exec X (Unit {0})
  pub close : X → X
  pub dispose : X → X

module _ {X : Type 0} (alembic : Alembic X) where
  -- The end of `with context.begin_transaction():`
  abbrev end_transaction : Result (Unit {0}) → X → X
  end_transaction (ok _) x = alembic.commit x
  end_transaction (err e) x = alembic.rollback x

  unfoldable pub in_transaction : Configuration → Exec X (Unit {0})
  in_transaction configuration x =
      let (outcome, x') =
        alembic.run_migrations (alembic.begin_transaction (alembic.configure configuration x)) in
      (outcome, end_transaction outcome x')

  unfoldable pub run_migrations_offline : String → Exec X (Unit {0})
  unfolding in_transaction
  run_migrations_offline url = in_transaction (offline url)

  -- `async with connectable.connect() as connection:` closes the connection in any case.
  connected : Exec X (Unit {0})
  unfolding in_transaction
  connected x = let (outcome, x') = in_transaction online x in (outcome, alembic.close x')

  unfoldable pub run_migrations_online : Exec X (Unit {0})
  unfolding connected
  run_migrations_online = do alembic.connect; connected; modify alembic.dispose

  -- If a migration raises, its transaction is rolled back and the connection is closed, and the
  -- error leaves the run, which does not reach the disposal of the engine.
  failed_run :
      (x : X) (e : Error)
      → (alembic.connect x).0 ≡ ok tt
      → (alembic.run_migrations
          (alembic.begin_transaction (alembic.configure online (alembic.connect x).1))).0
        ≡ err e
      → run_migrations_online x ≡ (
        err e,
        alembic.close (
            alembic.rollback
              (alembic.run_migrations
                (alembic.begin_transaction (alembic.configure online (alembic.connect x).1))).1),
      )
  unfolding run_migrations_online
  failed_run x e opened raised = rw (opened, raised) refl
