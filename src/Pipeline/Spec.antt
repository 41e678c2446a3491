-- ===== src/Pipeline/Spec.antt =====
-- The parts of a pipeline file that a run reads: spec.go. A YAML mapping is the list of its entries.
use network_adapter.Prelude.{ℕ, Bool, Option, List, Str}
use network_adapter.Pipeline.Value.{Record}

-- With; `of`, `left` and `right` name collections.
pub record With : Type 0 where
  pub path : Str
  pub mapping : Str
  pub local_values : List (Str × Str)
  pub left : Str
  pub right : Str
  pub on : Str
  pub type : Str
  pub carry : List Str
  pub field : Str
  pub rules : List Record
  pub then_edits : List Record
  pub key : Str
  pub records : List Record
  pub of : List Str
  pub when : Str

-- StepOutcome
pub record StepOutcome : Type 0 where
  pub counter : Str
  pub continue : Bool

-- Step; `other` is the constant of its `else:`.
pub record Step : Type 0 where
  pub id : Str
  pub uses : Str
  pub args : With
  pub out : Str
  pub when : Str
  pub other : Str
  pub fail_when_empty : Str
  pub for_each : Str
  pub loop_name : Str
  pub concurrency : ℕ
  pub on_error : List (Str × StepOutcome)
  pub on_empty_output : StepOutcome

-- ExcludeRule
pub record ExcludeRule : Type 0 where
  pub when : Str
  pub reason : Str

-- AnnotateRule
pub record AnnotateRule : Type 0 where
  pub when : Str
  pub label : Str

-- Order
pub record Order : Type 0 where
  pub by : Str
  pub direction : Str
  pub render_by : List Str

-- Chunk; a budget that is not positive is 0.
pub record Chunk : Type 0 where
  pub budget : ℕ
  pub cost : Str
  pub slug : Str
  pub refuse_split_when : Str

-- Render
pub record Render : Type 0 where
  pub mapping : Str
  pub mapping_by_field : Str
  pub mappings : List (Str × Str)
  pub local_values : List (Str × Str)

-- Catalog, with the two templates of Identity.
pub record Catalog : Type 0 where
  pub group_by : Str
  pub exclude : List ExcludeRule
  pub annotate : List AnnotateRule
  pub order : Order
  pub chunk : Chunk
  pub catalog_id : Str
  pub resource_id : Str
  pub render : Render

-- RetireOld
pub record RetireOld : Type 0 where
  pub enabled : Str
  pub catalog_id : Str
  pub descriptor_name : Str
  pub is_active : Option Bool
  pub update_mode : Str
  pub catalog_type : Str
  pub visible_to : List Str
  pub schema_types : List Str

-- Publish
pub record Publish : Type 0 where
  pub url : Str
  pub refuse_when : Str
  pub retire_old : RetireOld
  pub address_hint : Str

-- BuiltCatalog
pub record BuiltCatalog : Type 0 where
  pub slug : Str
  pub catalog_id : Str
  pub content : Str
