-- ===== src/Registry.antt =====
-- The registry of goblins (registry.py) and what a queued job keeps of its goblin (metadata.py).
use goblin_king.Base.{
  ℕ, String, ◌==◌, Option, none, some, List, [], ◌∷◌, ◌++◌, any, Result, ok, raise, ◌>>=◌, ◌>>◌,
  raise_if,
}
use goblin_king.Contracts.{Json, str, Fields, end, field, get_field}
use goblin_king.Table.{get_row}

pub record GoblinDefinition : Type 0 where
  pub kind : String
  pub display_name : String
  pub module_name : String
  pub entrypoint : String
  pub timeout_seconds : Option ℕ
  pub max_retries : Option ℕ
  pub metadata : Fields

pub data RegistryError : Type 0 where
  duplicate_kind : (kind : String) → RegistryError
  unknown_kind : (kind : String) → RegistryError
  not_importable : (kind : String) → RegistryError

-- The dict from kinds to definitions, in the order of insertion.
pub record GoblinRegistry : Type 0 where
  pub definitions : List GoblinDefinition

abbrev pub definition_key : GoblinDefinition → String
definition_key definition = definition.kind

-- The loop of `_index_definitions`, with the definitions indexed so far.
unfoldable pub index_all :
    (indexed definitions : List GoblinDefinition) → Result RegistryError (List GoblinDefinition)
index_all indexed [] = ok indexed
index_all indexed (definition ∷ definitions) = do
  raise_if (any (λ d. d.kind == definition.kind) indexed) (duplicate_kind definition.kind)
  index_all (indexed ++ definition ∷ []) definitions

unfoldable pub index_definitions :
    List GoblinDefinition → Result RegistryError (List GoblinDefinition)
unfolding index_all
index_definitions definitions = index_all [] definitions

-- `GoblinRegistry(definitions)`; the import roots stand outside the model.
unfoldable pub from_definitions : List GoblinDefinition → Result RegistryError GoblinRegistry
unfolding index_definitions
from_definitions definitions = do
  indexed ← index_definitions definitions
  ok (record { definitions = indexed })

unfoldable pub get : (kind : String) → GoblinRegistry → Result RegistryError GoblinDefinition
get kind registry = elim (get_row definition_key kind registry.definitions) [
  | none ↦ raise (unknown_kind kind)
  | some definition ↦ ok definition
]

-- `resolve`, where `load` imports a definition's entry point or raises.
unfoldable pub resolve :
    {E : Type 0}
    → (load : GoblinDefinition → Result RegistryError E) (kind : String) → GoblinRegistry
    → Result RegistryError (GoblinDefinition × E)
unfolding get
resolve load kind registry = do
  definition ← get kind registry
  entrypoint ← load definition
  ok (definition, entrypoint)

abbrev pub with_default : Option Json → Json → Json
with_default none value = value
with_default (some value) _ = value

-- `goblin_job_metadata(definition)`; `model_dump` is pydantic's.
unfoldable pub goblin_job_metadata :
    (model_dump : GoblinDefinition → Json) → GoblinDefinition → Fields
goblin_job_metadata model_dump definition =
    field "goblin_source" (with_default (get_field "source" definition.metadata) (str "registry"))
      (field "goblin_definition" (model_dump definition) end)
