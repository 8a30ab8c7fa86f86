-- ===== src/Requests/History.antt =====
-- What holds of the database after any sequence of requests.
use fastapi_starter.Prelude.{ℕ, ◌≤◌, refl, List, [], ◌∷◌, arith}
use fastapi_starter.Ports.{Env, World}
use fastapi_starter.Database.Models.{RefreshTokenModel}
use fastapi_starter.Database.Session.{Session, IsSession, IsReady}
use fastapi_starter.Families.{Drawn, NoRepeat, OneLive}
use fastapi_starter.Families.Drawn.{Step-Drawn, Step-OneLive-Drawn}
use fastapi_starter.Families.Persistence.{KeepsRevoked, Step-KeepsRevoked}
use fastapi_starter.Families.Refines.{Refines}
use fastapi_starter.Auth.Login.Refines as LoginRefines
use fastapi_starter.Auth.Refresh.Refines as RefreshRefines
use fastapi_starter.Auth.Logout.Refines as LogoutRefines
use fastapi_starter.Users.CreateUser.Refines as CreateUserRefines
use fastapi_starter.Users.ChangePassword.Refines as ChangePasswordRefines
use fastapi_starter.Requests.{
  Request, register, login, renew, logout, change_password, serve, serve_all,
}

module _ {S : Type 0} (db : Session S) (env : Env) (h : IsSession db) where
  abbrev rows : World S → List RefreshTokenModel
  rows w = (h.contents w.session).tokens

  -- Every request, whatever its outcome, takes a ready and consistent state to another one, and its
  -- change of the two tables is one step of the abstract view.
  pub serve-Refines :
      (request : Request) (w : World S)
      → IsReady (h.contents w.session)
      → Refines env
          (h.contents w.session)
          w.calls
          (h.contents (serve db env request w).session)
          (serve db env request w).calls
  unfolding serve
  serve-Refines (register command) w ready =
      CreateUserRefines.execute-End db env h w.calls ready command w
        (record { same = refl; later = omega arith })
  serve-Refines (login command) w ready =
      LoginRefines.execute-End db env h w.calls ready command w
        (record { same = refl; later = omega arith })
  serve-Refines (renew token) w ready =
      RefreshRefines.execute-End db env h w.calls ready token w
        (record { same = refl; later = omega arith })
  serve-Refines (logout token) w ready =
      LogoutRefines.execute-End db env h w.calls ready token w
        (record { same = refl; later = omega arith })
  serve-Refines (change_password command) w ready =
      ChangePasswordRefines.execute-End db env h w.calls ready command w
        (record { same = refl; later = omega arith })

  -- What every state between two requests satisfies.
  pub record IsSound (w : World S) : Type 0 where
    pub ready : IsReady (h.contents w.session)
    pub drawn : Drawn env.uuid4 w.calls (rows w)
    pub one_live : OneLive (rows w)

  serve-IsSound :
      (limit : ℕ)
      → NoRepeat env.uuid4 limit
      → (request : Request) (w : World S) → (serve db env request w).calls ≤ limit
      → IsSound w
      → IsSound (serve db env request w)
  serve-IsSound limit unique request w below sound =
      let r = serve-Refines request w sound.ready in
      record {
        ready = r.ready;
        drawn =
            Step-Drawn env.uuid4 limit unique w.calls (serve db env request w).calls r.later r.step
              sound.drawn;
        one_live =
            Step-OneLive-Drawn env.uuid4 limit unique w.calls (serve db env request w).calls below
              r.step sound.drawn sound.one_live;
      }

  -- The calls of the outside only grow.
  serve_all-calls :
      (requests : List Request) (w : World S)
      → IsReady (h.contents w.session)
      → w.calls ≤ (serve_all db env requests w).calls
  unfolding serve_all
  serve_all-calls [] w ready = omega arith
  serve_all-calls (request ∷ rest) w ready =
      let refined = serve-Refines request w ready in
      let grown = refined.later in
      let more = serve_all-calls rest (serve db env request w) refined.ready in
      omega (arith, grown, more)

  -- From a sound state, whatever the requests, their order and their outcomes, the database stays
  -- consistent with nothing pending, every family id stays a former draw, and no family has two live
  -- tokens, if the answers of `uuid4` up to the last request are all different.
  pub serve_all-IsSound :
      (requests : List Request) (w : World S)
      → NoRepeat env.uuid4 (serve_all db env requests w).calls
      → IsSound w
      → IsSound (serve_all db env requests w)
  unfolding serve_all
  serve_all-IsSound [] w unique sound = sound
  serve_all-IsSound (request ∷ rest) w unique sound =
      let between = serve db env request w in
      let refined = serve-Refines request w sound.ready in
      serve_all-IsSound rest between unique (
        serve-IsSound (serve_all db env rest between).calls unique request w
          (serve_all-calls rest between refined.ready) sound)

  -- From a ready and consistent state, no sequence of requests brings a revoked token back or moves
  -- the time of its revocation: its row stays as it is.
  pub serve_all-KeepsRevoked :
      (requests : List Request) (w : World S)
      → IsReady (h.contents w.session)
      → KeepsRevoked (rows w) (rows (serve_all db env requests w))
  unfolding serve_all
  serve_all-KeepsRevoked [] w ready j r at found revoked = found
  serve_all-KeepsRevoked (request ∷ rest) w ready j r at found revoked =
      let refined = serve-Refines request w ready in
      serve_all-KeepsRevoked rest (serve db env request w) refined.ready j r at
        (Step-KeepsRevoked refined.step j r at found revoked) revoked
