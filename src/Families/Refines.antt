-- ===== src/Families/Refines.antt =====
-- From a request's session to a step of the token table: a request ends with its session untouched
-- or with one commit, and then the session is closed.
use mathlib.Core.Path.{subst}
use fastapi_starter.Prelude.{
  ℕ, ◌≤◌, List, arith, String, ◌≡◌, refl, sym, ap, ◌∙◌, some, inl, inr, Option-cases, Bool-cases,
}
use fastapi_starter.Exec.{Exec, ◌>>◌, resume_then}
use fastapi_starter.Ports.{Env, World}
use fastapi_starter.Domain.Users.{Uuid}
use fastapi_starter.Database.Models.{RefreshTokenModel}
use fastapi_starter.Accounts.{AccountStep, same}
use fastapi_starter.Database.Session.{
  Session, IsSession, Contents, integrity, failure, flushed, restored, Holds, IsReady,
}
use fastapi_starter.Database.UnitOfWork
use fastapi_starter.Database.UnitOfWork.{names_email}
use fastapi_starter.Families.{Step, keep, sweep_family, sweep_user, start, rotate, DrawnSince}

-- The two ways in which a transaction ends.
pub data Settled (before after : Contents) : Type 0 where
  stored :
      after ≡ flushed before
      → Holds (flushed before).users (flushed before).tokens
      → Settled before after
  dropped : after ≡ restored before → Settled before after

-- What one request did: a step of the accounts and a step of the token families, whose new ids were
-- drawn in between; and the session is ready for the next request.
pub record Refines (env : Env) (before : Contents) (n : ℕ) (after : Contents) (n' : ℕ)
    : Type 0 where
  pub accounts : AccountStep before.users after.users
  pub step : Step (DrawnSince env.uuid4 n n') before.tokens after.tokens
  pub ready : IsReady after
  pub later : n ≤ n'

-- A session that still has the committed rows of the request's start.
pub record IsSince (before now : Contents) : Type 0 where
  pub users_saved : now.saved_users ≡ before.users
  pub tokens_saved : now.saved_tokens ≡ before.tokens

pub IsReady-IsSince : {before now : Contents} → IsReady before → now ≡ before → IsSince before now
IsReady-IsSince ready e =
    rw e (record { users_saved = ready.users_saved; tokens_saved = ready.tokens_saved })

pub saved-IsSince :
    {before now : Contents}
    → IsReady before
    → now.saved_users ≡ before.saved_users
    → now.saved_tokens ≡ before.saved_tokens
    → IsSince before now
saved-IsSince ready u t = record {
  users_saved = u ∙ ready.users_saved;
  tokens_saved = t ∙ ready.tokens_saved;
}

-- A step whose new families are new in a weaker sense too.
Step-mono :
    {P Q : Uuid → Type 0} {rows after : List RefreshTokenModel}
    → ((f : Uuid) → P f → Q f)
    → Step P rows after
    → Step Q rows after
Step-mono w (keep e) = keep e
Step-mono w (sweep_family f at e) = sweep_family f at e
Step-mono w (sweep_user u at e) = sweep_user u at e
Step-mono w (start fresh live new e) = start fresh live (w fresh.family_id new) e
Step-mono w (rotate old fresh at found live born family e) =
    rotate old fresh at found live born family e

later_draws :
    {uuid4 : ℕ → Uuid} {n : ℕ} (m k : ℕ)
    → m ≤ k
    → (f : Uuid) → DrawnSince uuid4 n m f
    → DrawnSince uuid4 n k f
later_draws m k le f (i, lo, hi, e) = (i, lo, omega arith, e)

module _ (env : Env) {before : Contents} {n : ℕ} (ready : IsReady before) where
  restored-Refines :
      {now : Contents} {n' : ℕ}
      → IsSince before now
      → n ≤ n'
      → Refines env before n (restored now) n'
  restored-Refines {now} since le = record {
    accounts = same since.users_saved;
    step = keep since.tokens_saved;
    ready = record {
      no_users = refl;
      no_tokens = refl;
      users_saved = refl;
      tokens_saved = refl;
      consistent = rw (since.users_saved, since.tokens_saved) ready.consistent;
    };
    later = le;
  }

  Settled-Refines :
      {now after : Contents} {n' : ℕ}
      → IsSince before now
      → n ≤ n'
      → AccountStep before.users (flushed now).users
      → Step (DrawnSince env.uuid4 n n') before.tokens (flushed now).tokens
      → Settled now after
      → Refines env before n after n'
  Settled-Refines {now} {n'} since le accounts step (stored e holds) =
      subst (λ c. Refines env before n c n') (sym e)
        (record {
          accounts = accounts;
          step = step;
          ready = record {
            no_users = refl;
            no_tokens = refl;
            users_saved = refl;
            tokens_saved = refl;
            consistent = holds;
          };
          later = le;
        })
  Settled-Refines {now} {n'} since le accounts step (dropped e) =
      subst (λ c. Refines env before n c n') (sym e) (restored-Refines since le)

module _ {S : Type 0} (db : Session S) (h : IsSession db) where
  rolled_back :
      (w : World S) (message : String)
      → (db.commit w.session).0 ≡ some (integrity message)
      → Settled (h.contents w.session) (h.contents (db.close (db.rollback (db.commit w.session).1)))
  rolled_back w message refused = dropped (
      h.close_lem (db.rollback (db.commit w.session).1)
      ∙ ap (λ c. restored c) (h.rollback_lem w.session (integrity message) refused))

  -- What a commit leaves behind, once the session is closed.
  pub commit-Settled :
      (w : World S)
      → Settled (h.contents w.session) (h.contents (db.close (UnitOfWork.commit db w).1.session))
  unfolding UnitOfWork.commit
  commit-Settled w = elim (Option-cases (db.commit w.session).0) [
    | inl accepted ↦ rw accepted (
        stored (rw (h.close_lem, h.commit_stores w.session accepted))
          (h.commit_checks w.session accepted))
    | inr (integrity message, refused) ↦ elim (Bool-cases (names_email message)) [
      | inl known ↦ rw (refused, known) (rolled_back w message refused)
      | inr unknown ↦ rw (refused, unknown) (rolled_back w message refused)
    ]
    | inr (failure name, refused) ↦
        rw refused (dropped (h.close_failed w.session (failure name) refused))
  ]

  commit-calls : (w : World S) → (UnitOfWork.commit db w).1.calls ≡ w.calls
  unfolding UnitOfWork.commit
  commit-calls w = ground arith

-- The two ways in which a handler ends, for a request that begins with a ready session.
module _ {S : Type 0} (db : Session S) (env : Env) (h : IsSession db) {before : Contents} (n : ℕ)
    (ready : IsReady before) where
  abbrev pub End : World S → Type 0
  End w = Refines env before n (h.contents (db.close w.session)) w.calls

  -- The session is as the request found it.
  pub record Untouched (w : World S) : Type 0 where
    pub same : h.contents w.session ≡ before
    pub later : n ≤ w.calls

  pub Untouched-End : (w : World S) → Untouched w → End w
  Untouched-End w u =
      rw h.close_lem (restored-Refines env ready (IsReady-IsSince ready u.same) u.later)

  pub commit-End :
      (w : World S)
      → n ≤ w.calls
      → IsSince before (h.contents w.session)
      → AccountStep before.users (flushed (h.contents w.session)).users
      → Step (DrawnSince env.uuid4 n w.calls) before.tokens (flushed (h.contents w.session)).tokens
      → End (UnitOfWork.commit db w).1
  commit-End w le since accounts step =
      rw (commit-calls db h w)
        (Settled-Refines env ready since le accounts step (commit-Settled db h w))

  -- What follows a commit leaves the session alone.
  abbrev pub Quiet : {B : Type 0} → Exec (World S) B → Type 0
  Quiet next = (w : World S) → ((next w).1.session ≡ w.session) × (w.calls ≤ (next w).1.calls)

  pub commit_then-End :
      {B : Type 0} (next : Exec (World S) B)
      → Quiet next
      → (w : World S) → n ≤ w.calls
      → IsSince before (h.contents w.session)
      → AccountStep before.users (flushed (h.contents w.session)).users
      → Step (DrawnSince env.uuid4 n w.calls) before.tokens (flushed (h.contents w.session)).tokens
      → End ((UnitOfWork.commit db >> next) w).1
  commit_then-End next quiet w le since accounts step =
      let w' = (UnitOfWork.commit db w).1 in
      let final = ((UnitOfWork.commit db >> next) w).1 in
      let (kept, grown) =
        resume_then (λ v. (v.session ≡ w'.session) × (w'.calls ≤ v.calls))
          (UnitOfWork.commit db w).0 (λ _. next) w' (refl, omega arith) (λ _ _. quiet w') in
      rw kept (
        Settled-Refines env ready since (omega (arith, commit-calls db h w)) accounts
          (Step-mono
            (λ f new. later_draws w.calls final.calls (omega (arith, commit-calls db h w)) f new)
            step)
          (commit-Settled db h w))
