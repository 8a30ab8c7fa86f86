-- ===== src/Database/Migrations/Environment/Percent.antt =====
-- Which database URLs reach the engine of the migrations.
use fastapi_starter.Prelude.{
  ℕ, zero, suc, ◌≡◌, refl, true, false, ◌&&◌, Option, none, some, [], ◌∷◌, ◌++◌, any, length, ◌==◌,
  arith, ap, any-append, ◌∙◌,
}
use fastapi_starter.Database.Migrations.Environment.{
  Text, is_percent, without_doubled, after_reference, without_references, before_set, interpolate,
  engine_url,
}

without_doubled-plain : (text : Text) → any is_percent text ≡ false → without_doubled text ≡ text
unfolding without_doubled
without_doubled-plain [] plain = refl
without_doubled-plain (x ∷ []) plain = refl
without_doubled-plain (x ∷ y ∷ rest) plain = ground (arith, without_doubled-plain (y ∷ rest))

without_references-plain :
    (fuel : ℕ) (text : Text) → any is_percent text ≡ false → without_references fuel text ≡ text
unfolding without_references
without_references-plain zero text plain = refl
without_references-plain (suc fuel) [] plain = refl
without_references-plain (suc fuel) (x ∷ rest) plain =
    ground (arith, without_references-plain fuel rest)

interpolate-plain :
    (option : Text → Option Text) (depth fuel : ℕ) (text : Text)
    → any is_percent text ≡ false
    → interpolate option (suc depth) fuel text ≡ some text
unfolding interpolate
interpolate-plain option depth zero text plain = refl
interpolate-plain option depth (suc fuel) [] plain = refl
interpolate-plain option depth (suc fuel) (x ∷ []) plain = ground arith
interpolate-plain option depth (suc fuel) (x ∷ y ∷ rest) plain =
    ground (arith, interpolate-plain option depth fuel (y ∷ rest))

without_doubled_step :
    (x y : ℕ) (rest : Text)
    → (is_percent x && is_percent y) ≡ false
    → without_doubled (x ∷ y ∷ rest) ≡ x ∷ without_doubled (y ∷ rest)
unfolding without_doubled
without_doubled_step x y rest apart = ground arith

without_doubled_head :
    (c : ℕ) (rest : Text)
    → is_percent c ≡ false
    → (rest' : Text) × (without_doubled (c ∷ rest) ≡ c ∷ rest')
unfolding without_doubled
without_doubled_head c [] other = ([], refl)
without_doubled_head c (y ∷ rest) other =
    (without_doubled (y ∷ rest), without_doubled_step c y rest (ground arith))

-- A percent sign that begins neither a doubled one nor a reference survives both removals.
without_doubled-raw :
    (front : Text) (c : ℕ) (rest : Text)
    → any is_percent front ≡ false
    → is_percent c ≡ false
    → (rest' : Text) × (without_doubled (front ++ 37 ∷ c ∷ rest) ≡ front ++ 37 ∷ c ∷ rest')
without_doubled-raw [] c rest plain other =
    let (rest', e) = without_doubled_head c rest other in
    (rest', without_doubled_step 37 c rest (ground arith) ∙ ap (λ t. 37 ∷ t) e)
without_doubled-raw (x ∷ []) c rest plain other =
    let (rest', e) = without_doubled-raw [] c rest refl other in
    (rest', without_doubled_step x 37 (c ∷ rest) (ground arith) ∙ ap (λ t. x ∷ t) e)
without_doubled-raw (x ∷ y ∷ front) c rest plain other =
    let (rest', e) = without_doubled-raw (y ∷ front) c rest (ground arith) other in
    (rest', without_doubled_step x y (front ++ 37 ∷ c ∷ rest) (ground arith) ∙ ap (λ t. x ∷ t) e)

after_reference-none : (c : ℕ) (rest : Text) → (c == 40) ≡ false → after_reference (c ∷ rest) ≡ none
unfolding after_reference
after_reference-none c [] other = refl
after_reference-none c (y ∷ rest) other = ground arith

without_references-raw :
    (fuel : ℕ) (front : Text) (c : ℕ) (rest : Text)
    → any is_percent front ≡ false
    → (c == 40) ≡ false
    → any is_percent (without_references fuel (front ++ 37 ∷ c ∷ rest)) ≡ true
unfolding without_references
without_references-raw zero front c rest plain other =
    any-append is_percent front (37 ∷ c ∷ rest) ∙ rw plain refl
without_references-raw (suc fuel) [] c rest plain other =
    ground (arith, after_reference-none c rest other)
without_references-raw (suc fuel) (x ∷ front) c rest plain other =
    ground (arith, without_references-raw fuel front c rest)

before_set-plain : (text : Text) → any is_percent text ≡ false → before_set text ≡ some text
unfolding before_set
before_set-plain text plain =
    rw (without_doubled-plain text plain, without_references-plain (length text) text plain, plain)
      refl

before_set-raw :
    (front rest : Text) (c : ℕ)
    → any is_percent front ≡ false
    → is_percent c ≡ false
    → (c == 40) ≡ false
    → before_set (front ++ 37 ∷ c ∷ rest) ≡ none
unfolding before_set
before_set-raw front rest c plain other no_reference =
    let (rest', kept) = without_doubled-raw front c rest plain other in
    let left =
      without_references-raw (length (front ++ 37 ∷ c ∷ rest)) front c rest' plain no_reference in
    rw (kept, left) refl

module _ (option : Text → Option Text) where
  -- A database URL without a percent sign reaches the engine of the migrations as it is. One whose
  -- first percent sign is followed by a character that is neither a percent sign nor an opening
  -- bracket, as in a percent-encoded password, does not reach it: storing it raises ValueError.
  pub percent_stops_migrations :
      (front rest : Text) (c : ℕ)
      → any is_percent front ≡ false
      → is_percent c ≡ false
      → (c == 40) ≡ false
      → (engine_url option front ≡ some front)
        × (before_set (front ++ 37 ∷ c ∷ rest) ≡ none)
        × (engine_url option (front ++ 37 ∷ c ∷ rest) ≡ none)
  unfolding engine_url
  percent_stops_migrations front rest c plain other no_reference =
      let accepted = before_set-plain front plain in
      let refused = before_set-raw front rest c plain other no_reference in
      (
        rw (engine_url, accepted) (interpolate-plain option 9 (length front) front plain),
        refused,
        rw (engine_url, refused) refl,
      )
