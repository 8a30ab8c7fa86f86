-- ===== src/Database/TokenRepository/Refines.antt =====
-- refresh_token_repository.py beside the contract of its port, one write after another.
use mathlib.Core.Option
use fastapi_starter.Prelude.{
  ◌≡◌, refl, sym, ◌∙◌, ap, Bool, not, ◌&&◌, ◌==◌, none, some, Option-cases, inl, inr, List, [], ◌∷◌,
  ◌++◌,
}
use fastapi_starter.Domain.Errors.{ok}
use fastapi_starter.Domain.Users.{Uuid, Instant}
use fastapi_starter.Domain.Tokens.{RefreshTokenRecord, is_set}
use fastapi_starter.Ports.{World}
use fastapi_starter.Database.Models.{RefreshTokenModel}
use fastapi_starter.Database.Session.{
  Session, Contents, IsSession, flushed, put_token, update_where,
}
use fastapi_starter.Database.TokenMapper.{to_domain, to_model, apply_to_model}
use fastapi_starter.Database.TokenRepository
use fastapi_starter.Database.TokenRepository.{live_in_family, live_of_user, revoked_now, get_by_jti}
use fastapi_starter.Database.TokenRepository.Contract.{
  TokenWrite, add, update, revoke_family, revoke_all_for_user, written, insert, end_where, promised,
  IsUnused, records, committed,
}
use fastapi_starter.Database.TokenRepository.Rows.{records_added, records_put, records_ended}

append_nil : {A : Type 0} (xs : List A) → xs ++ [] ≡ xs
append_nil [] = refl
append_nil (x ∷ xs) = ap (λ ys. x ∷ ys) (append_nil xs)

-- The records that a commit leaves where no token is pending.
settled : (c : Contents) → c.new_tokens ≡ [] → records (flushed c).tokens ≡ records c.tokens
settled c none_new =
    ap (λ new. records (c.tokens ++ new)) none_new ∙ ap records (append_nil c.tokens)

-- The two clauses, read off the record of a row.
family_of_row :
    (f : Uuid) (m : RefreshTokenModel)
    → live_in_family f m ≡ ((to_domain m).family_id == f && not (is_set m.revoked_at))
unfolding to_domain
family_of_row f m = refl

user_of_row :
    (u : Uuid) (m : RefreshTokenModel)
    → live_of_user u m ≡ ((to_domain m).user_id.value == u && not (is_set m.revoked_at))
unfolding to_domain
user_of_row u m = refl

module _ {S : Type 0} (db : Session S) (h : IsSession db) (w : World S)
    (none_new : (h.contents w.session).new_tokens ≡ []) where
  now : committed db h w ≡ records (h.contents w.session).tokens
  now = settled (h.contents w.session) none_new

  stored : (j : Uuid) → committed db h w j ≡ Option.map to_domain (db.get_token j w.session)
  stored j = ap (λ s. s j) now ∙ ap (Option.map to_domain) (sym (h.get_token_lem j w.session))

  swept :
      (test : RefreshTokenRecord → Bool) (live : RefreshTokenModel → Bool) (at : Instant)
      → ((m : RefreshTokenModel) → live m ≡ (test (to_domain m) && not (is_set m.revoked_at)))
      → committed db h (record w { session = db.update_tokens live (revoked_now at) w.session })
        ≡ end_where test at (committed db h w)
  swept test live at reads =
      let c = h.contents w.session in
      ap (λ c'. records (flushed c').tokens) (h.update_tokens_lem live (revoked_now at) w.session)
      ∙ settled (record c { tokens = update_where live (revoked_now at) c.tokens }) none_new
      ∙ records_ended test live at c.tokens reads
      ∙ ap (end_where test at) (sym now)

  put :
      (r : RefreshTokenRecord) (m : RefreshTokenModel)
      → db.get_token r.jti w.session ≡ some m
      → committed db h (record w { session = db.set_token (apply_to_model r m) w.session })
        ≡ insert (record (to_domain m) { revoked_at = r.revoked_at }) (committed db h w)
  put r m found =
      let c = h.contents w.session in
      ap (λ c'. records (flushed c').tokens) (h.set_token_lem (apply_to_model r m) w.session)
      ∙ settled (record c { tokens = put_token (apply_to_model r m) c.tokens }) none_new
      ∙ records_put r m c.tokens (sym (h.get_token_lem r.jti w.session) ∙ found)
      ∙ ap (insert (record (to_domain m) { revoked_at = r.revoked_at })) (sym now)

  added :
      (r : RefreshTokenRecord)
      → committed db h w r.jti ≡ none
      → committed db h (record w { session = db.add_token (to_model r) w.session })
        ≡ insert r (committed db h w)
  added r unused =
      let c = h.contents w.session in
      ap (λ c'. records (flushed c').tokens) (h.add_token_lem (to_model r) w.session)
      ∙ ap (λ new. records (c.tokens ++ (new ++ to_model r ∷ []))) none_new
      ∙ records_added r c.tokens (sym (ap (λ s. s r.jti) now) ∙ unused)
      ∙ ap (insert r) (sym now)

  updated-Refines :
      (r : RefreshTokenRecord)
      → ((TokenRepository.update db r w).0, committed db h (TokenRepository.update db r w).1)
        ≡ promised (update r) (committed db h w)
  unfolding TokenRepository.update
  updated-Refines r = elim (Option-cases (db.get_token r.jti w.session)) [
    | inl missing ↦ rw (stored r.jti, missing) refl
    | inr (m, found) ↦ rw (stored r.jti, found) (ap (λ s. (ok tt, s)) (put r m found))
  ]

  get_by_jti-Refines : (j : Uuid) → get_by_jti db j w ≡ (ok (committed db h w j), w)
  unfolding get_by_jti
  get_by_jti-Refines j = ap (λ o. (ok o, w)) (sym (stored j))

  written-Refines :
      (write : TokenWrite)
      → IsUnused write (committed db h w)
      → ((written db write w).0, committed db h (written db write w).1)
        ≡ promised write (committed db h w)
  unfolding TokenRepository.add TokenRepository.revoke_family TokenRepository.revoke_all_for_user
  written-Refines (add r) unused = ap (λ s. (ok tt, s)) (added r unused)
  written-Refines (update r) unused = updated-Refines r
  written-Refines (revoke_family f at) unused =
      ap (λ s. (ok tt, s)) (swept (λ r. r.family_id == f) (live_in_family f) at (family_of_row f))
  written-Refines (revoke_all_for_user u at) unused =
      ap (λ s. (ok tt, s))
        (swept (λ r. r.user_id.value == u.value) (live_of_user u.value) at (user_of_row u.value))

  -- Between two transactions, where no token is pending, each of the four writes answers as the
  -- contract promises and leaves for the commit the store that it promises: `add`, under an unused
  -- id, one more record; `update` the time of revocation of the record with that id, or an
  -- InvalidTokenError and the store as it was where there is none; the two bulk revocations end at
  -- the given time the records of the family or of the user that have not ended. And `get_by_jti`
  -- reads that store and changes nothing.
  pub repository-Refines :
      (write : TokenWrite) (j : Uuid)
      → IsUnused write (committed db h w)
      → (((written db write w).0, committed db h (written db write w).1)
          ≡ promised write (committed db h w))
        × (get_by_jti db j w ≡ (ok (committed db h w j), w))
  repository-Refines write j unused = (written-Refines write unused, get_by_jti-Refines j)
