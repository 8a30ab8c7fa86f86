-- ===== src/Database/Shared/Revoking.antt =====
-- Statements that can only take rows out of use: an insert, or an update that leaves its rows
-- revoked. No order of such statements brings a revoked row back.
use mathlib.Core.Option
use fastapi_starter.Prelude.{
  ◌≡◌, refl, Bool, true, none, some, inl, inr, any, ◌&&◌, Bool-cases, Option-cases, List, [], ◌∷◌,
  ◌++◌, find, All, All-append, arith, if◌then◌else◌, ◌==◌,
}
use fastapi_starter.Domain.Users.{Uuid, Instant}
use fastapi_starter.Domain.Tokens.{is_set}
use fastapi_starter.Exec.{Exec, ◌>>◌, resume_then}
use fastapi_starter.Ports.{World}
use fastapi_starter.Database.Models.{UserModel, RefreshTokenModel}
use fastapi_starter.Database.Session.{Contents, CommitFault, integrity, failure, has_jti}
use fastapi_starter.Database.UnitOfWork.{commit, names_email}
use fastapi_starter.Database.TokenRepository.{revoked_now}
use fastapi_starter.Database.Shared.{
  Write, insert_user, update_user, insert_row, update_row, update_rows, apply, apply_all, Recording,
  refusal, settled, recording,
}
use fastapi_starter.Families.Persistence.{find-map_jti, find-append}

-- The row with an id is there and revoked.
abbrev pub IsRevokedIn : Uuid → List RefreshTokenModel → Type 0
IsRevokedIn j rows =
    (r : RefreshTokenModel) × (find (has_jti j) rows ≡ some r) × (is_set r.revoked_at ≡ true)

abbrev pub Revokes : Write → Type 0
Revokes (insert_user m) = Unit
Revokes (update_user m) = Unit
Revokes (insert_row m) = Unit
Revokes (update_row m) = is_set m.revoked_at ≡ true
Revokes (update_rows test change) =
    (r : RefreshTokenModel) → ((change r).jti ≡ r.jti) × (is_set (change r).revoked_at ≡ true)

apply-IsRevokedIn :
    (write : Write) (j : Uuid) (rows : List RefreshTokenModel)
    → Revokes write
    → IsRevokedIn j rows
    → IsRevokedIn j (apply write rows)
unfolding apply
apply-IsRevokedIn (insert_user m) j rows safe revoked = revoked
apply-IsRevokedIn (update_user m) j rows safe revoked = revoked
apply-IsRevokedIn (insert_row m) j rows safe (r, found, revoked) =
    (r, find-append (has_jti j) rows (m ∷ []) found, revoked)
apply-IsRevokedIn (update_row m) j rows safe (r, found, revoked) =
    let change : RefreshTokenModel → RefreshTokenModel = λ x. if x.jti == m.jti then m else x in
    (
      change r,
      rw (find-map_jti change (λ x. ground arith) j rows, found) refl,
      ground (arith, safe, revoked),
    )
apply-IsRevokedIn (update_rows test change) j rows safe (r, found, revoked) =
    let changed : RefreshTokenModel → RefreshTokenModel = λ x. if test x then change x else x in
    (
      changed r,
      rw (find-map_jti changed (λ x. ground (arith, (safe x).0)) j rows, found) refl,
      ground (arith, (safe r).1, revoked),
    )

pub apply_all-IsRevokedIn :
    (writes : List Write) (j : Uuid) (rows : List RefreshTokenModel)
    → All Revokes writes
    → IsRevokedIn j rows
    → IsRevokedIn j (apply_all writes rows)
unfolding apply_all
apply_all-IsRevokedIn [] j rows safe revoked = revoked
apply_all-IsRevokedIn (write ∷ writes) j rows (first, rest) revoked =
    apply_all-IsRevokedIn writes j (apply write rows) rest
      (apply-IsRevokedIn write j rows first revoked)

-- A session whose statements, sent or waiting, all do so.
pub record IsRevoking (s : Recording) : Type 0 where
  pub waiting : All Revokes s.pending
  pub sent : All Revokes s.written

settled-IsRevoking :
    (s : Recording) (r : Option.Option CommitFault) → IsRevoking s → IsRevoking (settled s r).1
settled-IsRevoking s none safe = record {
  waiting = tt;
  sent = All-append Revokes s.written s.pending safe.sent safe.waiting;
}
settled-IsRevoking s (some fault) safe = safe

-- One more statement.
appended-IsRevoking :
    (s : Recording) (c : Contents) (write : Write)
    → Revokes write
    → IsRevoking s
    → IsRevoking (record s { inner = c; pending = s.pending ++ write ∷ [] })
appended-IsRevoking s c write safe before = record {
  waiting = All-append Revokes s.pending (write ∷ []) before.waiting (safe, tt);
  sent = before.sent;
}

pub add_token-IsRevoking :
    (m : RefreshTokenModel) (s : Recording) → IsRevoking s → IsRevoking (recording.add_token m s)
unfolding recording
add_token-IsRevoking m s safe = appended-IsRevoking s _ (insert_row m) tt safe

pub set_token-IsRevoking :
    (m : RefreshTokenModel) (s : Recording)
    → is_set m.revoked_at ≡ true
    → IsRevoking s
    → IsRevoking (recording.set_token m s)
unfolding recording
set_token-IsRevoking m s revoked safe = appended-IsRevoking s _ (update_row m) revoked safe

pub update_tokens-IsRevoking :
    (test : RefreshTokenModel → Bool) (at : Instant) (s : Recording)
    → IsRevoking s
    → IsRevoking (recording.update_tokens test (revoked_now at) s)
unfolding recording
update_tokens-IsRevoking test at s safe =
    appended-IsRevoking s _
      (update_rows (λ m. test m && any (has_jti m.jti) s.met.reach) (revoked_now at))
      (λ r. (refl, refl)) safe

pub add_user-IsRevoking :
    (m : UserModel) (s : Recording) → IsRevoking s → IsRevoking (recording.add_user m s)
unfolding recording
add_user-IsRevoking m s safe = appended-IsRevoking s _ (insert_user m) tt safe

pub set_user-IsRevoking :
    (m : UserModel) (s : Recording) → IsRevoking s → IsRevoking (recording.set_user m s)
unfolding recording
set_user-IsRevoking m s safe = appended-IsRevoking s _ (update_user m) tt safe

pub close-IsRevoking : (s : Recording) → IsRevoking s → IsRevoking (recording.close s)
unfolding recording
close-IsRevoking s safe = record { waiting = tt; sent = safe.sent }

pub commit-IsRevoking :
    (w : World Recording) → IsRevoking w.session → IsRevoking (commit recording w).1.session
unfolding commit recording
commit-IsRevoking w safe =
    let r = refusal w.session.met w.session.pending in
    let done = settled-IsRevoking w.session r safe in
    elim (Option-cases (settled w.session r).0) [
      | inl accepted ↦ rw accepted done
      | inr (failure name, refused) ↦ rw refused done
      | inr (integrity message, refused) ↦ elim (Bool-cases (names_email message)) [
        | inl known ↦ rw (refused, known) (record { waiting = tt; sent = done.sent })
        | inr unknown ↦ rw (refused, unknown) (record { waiting = tt; sent = done.sent })
      ]
    ]

-- What follows a commit leaves the session alone.
pub commit_then-IsRevoking :
    {B : Type 0} (next : Exec (World Recording) B)
    → ((v : World Recording) → (next v).1.session ≡ v.session)
    → (w : World Recording) → IsRevoking w.session
    → IsRevoking ((commit recording >> next) w).1.session
commit_then-IsRevoking next quiet w safe =
    let w' = (commit recording w).1 in
    let done = commit-IsRevoking w safe in
    resume_then (λ v. IsRevoking v.session) (commit recording w).0 (λ _. next) w' done
      (λ _ _. rw (quiet w') done)
