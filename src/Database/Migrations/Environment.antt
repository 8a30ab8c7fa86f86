-- ===== src/Database/Migrations/Environment.antt =====
-- migrations/env.py: how the URL of the settings reaches the engine, through the option file of
-- alembic, a `ConfigParser` of the standard library. A text is its code points.
pub mod Percent
use fastapi_starter.Prelude.{
  ℕ, zero, suc, ◌≡◌, refl, Bool, true, false, not, ◌&&◌, ◌||◌, Option, none, some, List, [], ◌∷◌,
  ◌++◌, any, length, ◌==◌, if◌then◌else◌, arith, Bool-cases, inl, inr, ap, any-append,
}

abbrev pub Text : Type 0
Text = List ℕ

abbrev pub is_percent : ℕ → Bool
is_percent x = x == 37

-- `value.replace("%%", "")`
unfoldable pub without_doubled : Text → Text
without_doubled [] = []
without_doubled (x ∷ []) = x ∷ []
without_doubled (x ∷ y ∷ rest) = elim (is_percent x && is_percent y) [
  | true ↦ without_doubled rest
  | false ↦ x ∷ without_doubled (y ∷ rest)
]

-- What follows a match of `[^)]*\)s`.
pub after_name : Text → Option Text
after_name [] = none
after_name (x ∷ []) = none
after_name (x ∷ y ∷ rest) =
    if x == 41 then (if y == 115 then some rest else none) else after_name (y ∷ rest)

-- What follows a match of `\(([^)]+)\)s`, as it may stand behind a percent sign.
unfoldable pub after_reference : Text → Option Text
unfolding after_name
after_reference (x ∷ y ∷ rest) = if x == 40 && not (y == 41) then after_name (y ∷ rest) else none
after_reference text = none

-- `_KEYCRE.sub("", value)`, with the length of the text as fuel.
unfoldable pub without_references : ℕ → Text → Text
unfolding after_reference
without_references zero text = text
without_references (suc fuel) [] = []
without_references (suc fuel) (x ∷ rest) =
    elim (if is_percent x then after_reference rest else none) [
      | none ↦ x ∷ without_references fuel rest
      | some text ↦ without_references fuel text
    ]

-- `BasicInterpolation.before_set`: `none` is the ValueError.
unfoldable pub before_set : Text → Option Text
unfolding without_doubled without_references
before_set value =
    let left = without_references (length value) (without_doubled value) in
    if any is_percent left then none else some value

-- The name of a reference, up to the bracket.
pub name_of : Text → Text
name_of [] = []
name_of (x ∷ rest) = if x == 41 then [] else x ∷ name_of rest

abbrev pub joined : Option Text → Option Text → Option Text
joined none more = none
joined (some front) none = none
joined (some front) (some more) = some (front ++ more)

-- `BasicInterpolation._interpolate_some`, with the options of the section given: the depth that is
-- left, and the length of the text as fuel. `none` is one of its errors.
module _ (option : Text → Option Text) where
  unfoldable pub interpolate : ℕ → ℕ → Text → Option Text
  unfolding after_reference name_of
  interpolate zero fuel text = none
  interpolate (suc depth) zero text = some text
  interpolate (suc depth) (suc fuel) [] = some []
  interpolate (suc depth) (suc fuel) (x ∷ []) = if is_percent x then none else some (x ∷ [])
  interpolate (suc depth) (suc fuel) (x ∷ y ∷ rest) = elim (is_percent x) [
    | false ↦ joined (some (x ∷ [])) (interpolate (suc depth) fuel (y ∷ rest))
    | true ↦ elim (is_percent y) [
      | true ↦ joined (some (y ∷ [])) (interpolate (suc depth) fuel rest)
      | false ↦ elim (after_reference (y ∷ rest)) [
        | none ↦ none
        | some more ↦ elim (option (name_of rest)) [
          | none ↦ none
          | some value ↦
              joined
                (elim (any is_percent value) [
                  | false ↦ some value
                  | true ↦ interpolate depth (length value) value
                ])
                (interpolate (suc depth) fuel more)
        ]
      ]
    ]
  ]

  -- The URL that the engine is made with: `set_main_option`, then `get_main_option` or
  -- `get_section`.
  unfoldable pub engine_url : Text → Option Text
  engine_url url = elim (before_set url) [
    | none ↦ none
    | some value ↦ interpolate 10 (length value) value
  ]
