-- ===== src/Config/Safety.antt =====
-- Which settings the application starts with.
use Prim.Native.String
use fastapi_starter.Prelude.{
  ◌≤◌, String, ◌≡◌, ◌≢◌, ◌↔◌, refl, Bool, true, false, none, List, [], ◌∷◌, ltb, str_eq, str_eq_iff,
  arith, Bool-cases, inl, inr,
}
use fastapi_starter.Config.{
  Settings, is_production, has_wildcard, problem_if, secret_problems, problems, refusal,
  reject_unsafe_production_config,
}

-- What a production setup must keep.
pub record IsSafe (settings : Settings) : Type 0 where
  pub own_secret : settings.jwt.secret ≢ "change-me-in-production"
  pub long_secret : 32 ≤ String.len settings.jwt.secret
  pub no_debug : settings.app.debug ≡ false
  pub explicit_origins : has_wildcard settings.app.cors_origins ≡ false
  pub explicit_hosts : has_wildcard settings.app.allowed_hosts ≡ false

problem_if_none :
    (b : Bool) (p : String) (ps : List String) → problem_if b p ps ≡ [] → (b ≡ false) × (ps ≡ [])
problem_if_none true p [] h = ground arith
problem_if_none true p (q ∷ qs) h = ground arith
problem_if_none false p ps h = (refl, h)

secret_problems_none :
    (secret : String)
    → secret_problems secret ≡ []
    → (str_eq secret "change-me-in-production" ≡ false) × (32 ≤ String.len secret)
secret_problems_none secret h = ground arith

refusal-none : (ps : List String) → refusal ps ≡ none → ps ≡ []
refusal-none [] h = refl
refusal-none (p ∷ ps) h = cc

different : (s t : String) → str_eq s t ≡ false → s ≢ t
different s t h e = let same = (str_eq_iff s t).1 e in ground arith

same_or : (s t : String) → s ≢ t → str_eq s t ≡ false
same_or s t h = elim (Bool-cases (str_eq s t)) [
  | inl same ↦ let e = (str_eq_iff s t).0 same in ground arith
  | inr apart ↦ apart
]

-- The settings of a production start are accepted exactly if the secret is not the default and at
-- least 32 bytes long, debug is off, and neither list has a wildcard.
pub accepted_iff_IsSafe :
    (settings : Settings)
    → is_production settings ≡ true
    → (reject_unsafe_production_config settings ≡ none) ↔ IsSafe settings
unfolding reject_unsafe_production_config problems
accepted_iff_IsSafe settings production = (
  λ accepted.
      let empty = refusal-none (problems settings) (rw production at accepted) in
      let (hosts, rest) = problem_if_none _ _ _ empty in
      let (origins, rest') = problem_if_none _ _ _ rest in
      let (debug, rest'') = problem_if_none _ _ _ rest' in
      let (own, long) = secret_problems_none settings.jwt.secret rest'' in
      record {
        own_secret = different settings.jwt.secret "change-me-in-production" own;
        long_secret = long;
        no_debug = debug;
        explicit_origins = origins;
        explicit_hosts = hosts;
      },
  λ safe.
      let own = same_or settings.jwt.secret "change-me-in-production" safe.own_secret in
      let long : ltb (String.len settings.jwt.secret) 32 ≡ false =
        let bound = safe.long_secret in ground arith in
      rw (production, safe.explicit_hosts, safe.explicit_origins, safe.no_debug, own, long) refl,
)
