-- ===== src/Seed/Twice.antt =====
-- Seeding a database again.
use fastapi_starter.Prelude.{List, ◌+◌, ◌≡◌, refl, true, false, none, [], ◌∷◌, ◌++◌, any, arith}
use fastapi_starter.Domain.Errors.{ok, message}
use fastapi_starter.Domain.Email.{Email, email, hashed_password}
use fastapi_starter.Ports.{Env, World}
use fastapi_starter.Database.Models.{UserModel}
use fastapi_starter.Database.Session.{Session, IsSession, IsReady}
use fastapi_starter.Database.UserRepository.{with_email}
use fastapi_starter.Users.CreateUser.{CreateUserCommand, execute}
use fastapi_starter.Users.CreateUser.Effects.{asked, new_row, view, register_stores, register_taken}
use fastapi_starter.Requests.{close_scope}
use fastapi_starter.Seed.{demo_email, demo_password, seed, user_created, user_exists}

module _ {S : Type 0} (db : Session S) (env : Env) (h : IsSession db) (w : World S) where
  abbrev command : CreateUserCommand
  command = record { email = demo_email; password = demo_password }

  abbrev demo : Email
  demo = record { value = demo_email }

  demo_parsed : env.lower demo_email ≡ demo_email → email env.lower env.repr demo_email ≡ ok demo
  unfolding email
  demo_parsed kept = rw kept refl

  any-append_self :
      (rows : List UserModel) (row : UserModel)
      → with_email demo_email row ≡ true
      → any (with_email demo_email) (rows ++ row ∷ []) ≡ true
  any-append_self [] row e = rw e refl
  any-append_self (r ∷ rows) row e = ground (arith, any-append_self rows row e)

  -- A first seeding with a free address that the database accepts creates the demo user; a second
  -- one then finds it and is not an error: it hashes nothing, delivers no event and leaves the rows
  -- of both tables as they are.
  pub seed_twice :
      IsReady (h.contents w.session)
      → env.lower demo_email ≡ demo_email
      → any (with_email demo_email) (h.contents w.session).users ≡ false
      → hashed_password (env.hash (w.calls + 1) demo_password)
        ≡ ok (record { value = env.hash (w.calls + 1) demo_password })
      → (db.commit (asked db env h w command demo).session).0 ≡ none
      → ((seed db env w).0 ≡ ok (user_created (view db env h w command demo)))
        × ((h.contents (seed db env w).1.session).users
            ≡ (h.contents w.session).users ++ new_row db env h w command demo ∷ [])
        × ((seed db env (seed db env w).1).0 ≡ ok (user_exists demo_email))
        × (h.contents (seed db env (seed db env w).1).1.session
            ≡ h.contents (seed db env w).1.session)
        × ((seed db env (seed db env w).1).1.hash_runs ≡ (seed db env w).1.hash_runs)
        × ((seed db env (seed db env w).1).1.dispatched ≡ (seed db env w).1.dispatched)
  unfolding seed message
  seed_twice ready kept unused hashed accepted =
      let parsed = demo_parsed kept in
      let (result, rows, events) =
        register_stores db env h w command demo ready parsed unused hashed accepted in
      let w' : World S = close_scope db env (execute db env command w).1 in
      let taken : any (with_email demo_email) (h.contents w'.session).users ≡ true =
        rw rows
          (any-append_self (h.contents w.session).users (new_row db env h w command demo) refl) in
      let again = register_taken db env h w' command demo parsed taken in
      let before = (execute db env command w).1.session in
      let closed : h.contents (db.close (db.close before)) ≡ h.contents (db.close before) =
        rw (h.close_lem, h.close_lem) refl in
      (rw result refl, rows, rw again refl, rw again closed, rw again refl, rw again refl)
