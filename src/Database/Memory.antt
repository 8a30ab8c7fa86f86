-- ===== src/Database/Memory.antt =====
-- A session over tables held in memory, which behaves as `IsSession` asks: the tests run on it.
use Prim.Native.String
use fastapi_starter.Prelude.{
  String, ◌≡◌, ◌≤◌, refl, Bool, true, ◌&&◌, Option, none, some, List, [], ◌∷◌, ◌++◌, any, find, All,
  arith, ◌==◌, leb, if◌then◌else◌, Bool-cases, inl, inr,
}
use fastapi_starter.Database.Models.{UserModel, RefreshTokenModel}
use fastapi_starter.Database.Session.{
  Session, IsSession, Contents, CommitFault, integrity, flushed, restored, Holds, no_clash,
  same_email, has_id, has_jti, put_user, put_token, update_where,
}

abbrev pub all_owned : List UserModel → List RefreshTokenModel → Bool
all_owned us [] = true
all_owned us (t ∷ ts) = any (has_id t.user_id) us && all_owned us ts

abbrev pub all_fit : List UserModel → Bool
all_fit [] = true
all_fit (u ∷ us) =
    (leb (String.count u.email) 320 && leb (String.count u.hashed_password) 255) && all_fit us

abbrev pub holds : List UserModel → List RefreshTokenModel → Bool
holds us ts =
    no_clash (λ a b. a.id == b.id) us
    && (no_clash same_email us
        && (no_clash (λ a b. a.jti == b.jti) ts && (all_owned us ts && all_fit us)))

all_owned_sound :
    (us : List UserModel) (ts : List RefreshTokenModel)
    → all_owned us ts ≡ true
    → All (λ t. any (has_id t.user_id) us ≡ true) ts
all_owned_sound us [] h = tt
all_owned_sound us (t ∷ ts) h = (ground arith, all_owned_sound us ts (ground arith))

all_owned_complete :
    (us : List UserModel) (ts : List RefreshTokenModel)
    → All (λ t. any (has_id t.user_id) us ≡ true) ts
    → all_owned us ts ≡ true
all_owned_complete us [] h = refl
all_owned_complete us (t ∷ ts) h = rw (h.0, all_owned_complete us ts h.1)

abbrev Fits : UserModel → Type 0
Fits u = (String.count u.email ≤ 320) × (String.count u.hashed_password ≤ 255)

all_fit_sound : (us : List UserModel) → all_fit us ≡ true → All Fits us
all_fit_sound [] h = tt
all_fit_sound (u ∷ us) h = ((ground arith, ground arith), all_fit_sound us (ground arith))

all_fit_complete : (us : List UserModel) → All Fits us → all_fit us ≡ true
all_fit_complete [] h = refl
all_fit_complete (u ∷ us) h = ground (arith, all_fit_complete us h.1)

pub holds_sound :
    (us : List UserModel) (ts : List RefreshTokenModel) → holds us ts ≡ true → Holds us ts
holds_sound us ts h = record {
  ids = ground arith;
  emails = ground arith;
  jtis = ground arith;
  owners = all_owned_sound us ts (ground arith);
  lengths = all_fit_sound us (ground arith);
}

pub holds_complete :
    (us : List UserModel) (ts : List RefreshTokenModel) → Holds us ts → holds us ts ≡ true
holds_complete us ts h =
    rw (h.ids, h.emails, h.jtis, all_owned_complete us ts h.owners, all_fit_complete us h.lengths)

abbrev pub violation : List UserModel → String
violation us =
    if no_clash same_email us
    then "constraint violated"
    else "UNIQUE constraint failed: users.email"

memory_commit : Contents → Option CommitFault × Contents
memory_commit c =
    if holds (flushed c).users (flushed c).tokens
    then (none, flushed c)
    else (some (integrity (violation (flushed c).users)), c)

unfoldable pub memory : Session Contents
unfolding memory_commit
memory = record {
  get_user = λ i c. find (has_id i) c.users;
  get_token = λ j c. find (has_jti j) c.tokens;
  select_users = λ c. c.users;
  add_user = λ m c. record c { new_users = c.new_users ++ m ∷ [] };
  add_token = λ m c. record c { new_tokens = c.new_tokens ++ m ∷ [] };
  set_user = λ m c. record c { users = put_user m c.users };
  set_token = λ m c. record c { tokens = put_token m c.tokens };
  update_tokens = λ test change c. record c { tokens = update_where test change c.tokens };
  commit = memory_commit;
  rollback = restored;
  close = restored;
}

module _ (c : Contents) where
  stores : (memory_commit c).0 ≡ none → (memory_commit c).1 ≡ flushed c
  unfolding memory_commit
  stores e = elim (Bool-cases (holds (flushed c).users (flushed c).tokens)) [
    | inl good ↦ rw good
    | inr bad ↦ let e' = rw bad at e in cc
  ]

  checks : (memory_commit c).0 ≡ none → Holds (flushed c).users (flushed c).tokens
  unfolding memory_commit
  checks e = elim (Bool-cases (holds (flushed c).users (flushed c).tokens)) [
    | inl good ↦ holds_sound (flushed c).users (flushed c).tokens good
    | inr bad ↦ let e' = rw bad at e in cc
  ]

  accepts : Holds (flushed c).users (flushed c).tokens → (memory_commit c).0 ≡ none
  unfolding memory_commit
  accepts h = rw (holds_complete (flushed c).users (flushed c).tokens h)

  refuses :
      (fault : CommitFault)
      → (memory_commit c).0 ≡ some fault
      → restored (memory_commit c).1 ≡ restored c
  unfolding memory_commit
  refuses fault e = elim (Bool-cases (holds (flushed c).users (flushed c).tokens)) [
    | inl good ↦ let e' = rw good at e in cc
    | inr bad ↦ rw bad
  ]

-- Where no two addresses clash, the message is not about them.
pub refusal_text :
    (c : Contents) (text : String)
    → (memory.commit c).0 ≡ some (integrity text)
    → no_clash same_email (flushed c).users ≡ true
    → text ≡ "constraint violated"
unfolding memory memory_commit
refusal_text c text e apart = elim (Bool-cases (holds (flushed c).users (flushed c).tokens)) [
  | inl good ↦ let e' = rw good at e in cc
  | inr bad ↦ let e' = rw (bad, apart) at e in cc
]

unfoldable pub memory-IsSession : IsSession memory
unfolding memory stores checks accepts refuses holds_complete all_owned_complete all_fit_complete
    all_owned_sound all_fit_sound
memory-IsSession = record {
  contents = λ c. c;
  get_user_lem = λ i s. refl;
  get_token_lem = λ j s. refl;
  select_users_lem = λ s. refl;
  add_user_lem = λ m s. refl;
  add_token_lem = λ m s. refl;
  set_user_lem = λ m s. refl;
  set_token_lem = λ m s. refl;
  update_tokens_lem = λ test change s. refl;
  commit_stores = stores;
  commit_checks = checks;
  commit_accepts = accepts;
  rollback_lem = refuses;
  close_failed = refuses;
  close_lem = λ s. refl;
}
