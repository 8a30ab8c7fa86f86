-- ===== src/Database/Shared/Laws.antt =====
-- What a commit on the shared tables needs, and what it then writes.
use fastapi_starter.Prelude.{
  ◌≡◌, refl, ◌∙◌, true, false, Option, none, some, List, [], ◌∷◌, ◌++◌, any, find, arith, ◌==◌,
  if◌then◌else◌,
}
use fastapi_starter.Database.Models.{UserModel, RefreshTokenModel}
use fastapi_starter.Database.Session.{CommitFault, Holds, has_id, has_jti, put_token}
use fastapi_starter.Database.Tables.{Holds-put_token, Holds-add_token, any-map, some_of_find}
use fastapi_starter.Database.Memory.{holds_complete}
use fastapi_starter.Database.Shared.{
  Recording, Met, insert_row, update_row, apply_all, refusal, settled, recording,
}

settled_written :
    (s : Recording) (r : Option CommitFault)
    → r ≡ none
    → ((settled s r).0 ≡ none) × ((settled s r).1.written ≡ s.written ++ s.pending)
settled_written s none e = (refl, refl)
settled_written s (some fault) e = cc

-- A commit that is not refused writes what was pending.
pub commit_writes :
    (s : Recording)
    → refusal s.met s.pending ≡ none
    → ((recording.commit s).0 ≡ none) × ((recording.commit s).1.written ≡ s.written ++ s.pending)
unfolding recording
commit_writes s accepted = settled_written s (refusal s.met s.pending) accepted

-- Tables in which the row of a token is written again with its owner, and a token with an unused id
-- and a stored owner is added.
pub exchanged-Holds :
    (old m fresh : RefreshTokenModel) {users : List UserModel} (rows : List RefreshTokenModel)
    → Holds users rows
    → find (has_jti m.jti) rows ≡ some old
    → m.user_id ≡ old.user_id
    → any (has_jti fresh.jti) rows ≡ false
    → any (has_id fresh.user_id) users ≡ true
    → Holds users (put_token m rows ++ fresh ∷ [])
exchanged-Holds old m fresh rows h found owner new known =
    Holds-add_token fresh
      (any-map (has_jti fresh.jti) (has_jti fresh.jti) (λ r. if r.jti == m.jti then m else r)
          (λ r. ground arith) rows
        ∙ new)
      known (Holds-put_token old m found owner h)

-- Such an exchange is not refused.
pub exchange_accepted :
    (met : Met) (old m fresh : RefreshTokenModel)
    → Holds met.users met.tokens
    → find (has_jti m.jti) met.tokens ≡ some old
    → m.user_id ≡ old.user_id
    → any (has_jti fresh.jti) met.tokens ≡ false
    → any (has_id fresh.user_id) met.users ≡ true
    → refusal met (update_row m ∷ insert_row fresh ∷ []) ≡ none
unfolding refusal apply_all
exchange_accepted met old m fresh h found owner new known =
    let there = some_of_find (has_jti m.jti) met.tokens found in
    let kept =
      holds_complete met.users (put_token m met.tokens ++ fresh ∷ [])
        (exchanged-Holds old m fresh met.tokens h found owner new known) in
    rw (there, kept) refl
