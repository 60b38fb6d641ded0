-- ===== src/Cli/Output.antt =====
-- cli/src/output.rs: the lines that are printed.
use attow_nexus.Prelude.{
  ℕ, zero, suc, ◌+◌, String, ◌<>◌, Bool, List, [], ◌∷◌, ◌++◌, eqb, if◌then◌else◌, concat,
}
use attow_nexus.Platform.{Platform}
use attow_nexus.Json.{
  Value, Items, Fields, null, bool, number, string, array, object, nil, cons, end, field,
}

-- `" ".repeat(indent)`
spaces : ℕ → String
spaces zero = ""
spaces (suc n) = " " <> spaces n

module _ (p : Platform) where
  unfoldable pub scalar : Value → String
  scalar (string text) = text
  scalar other = p.to_json_text other

  mutual
    pub human : ℕ → Value → List String
    human indent (array items) = human_items indent items
    human indent (object map) = human_fields indent map ++ (if eqb indent 0 then "" ∷ [] else [])
    human indent null = scalar null ∷ []
    human indent (bool b) = scalar (bool b) ∷ []
    human indent (number n) = scalar (number n) ∷ []
    human indent (string text) = scalar (string text) ∷ []

    pub human_items : ℕ → Items → List String
    human_items indent nil = []
    human_items indent (cons item items) = human indent item ++ human_items indent items

    pub human_fields : ℕ → Fields → List String
    human_fields indent end = []
    human_fields indent (field key value fs) =
        human_field indent key value ++ human_fields indent fs

    -- An inner value is printed at a deeper indent, which is not 0.
    pub human_field : ℕ → String → Value → List String
    human_field indent key (array items) =
        concat (spaces indent ∷ key ∷ ":" ∷ []) ∷ human_items (indent + 2) items
    human_field indent key (object map) =
        concat (spaces indent ∷ key ∷ ":" ∷ []) ∷ human_fields (indent + 2) map
    human_field indent key value = concat (spaces indent ∷ key ∷ ": " ∷ scalar value ∷ []) ∷ []

  -- `pretty` is `serde_json::to_string_pretty`
  pub print_value : (Value → String) → Bool → Value → List String
  print_value pretty json value = if json then pretty value ∷ [] else human 0 value
