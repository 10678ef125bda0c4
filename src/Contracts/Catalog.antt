-- ===== src/Contracts/Catalog.antt =====
-- RepositoryEntryRecord and RepositoryVersionRecord: the shared notebook catalog.
use goblin_king.Base.{ℕ, String, Option, List}
use goblin_king.Contracts.Documents.{Fields}
use goblin_king.Contracts.Status.{RepositoryStatus, RepositoryType}

pub record RepositoryEntryRecord : Type 0 where
  pub id : String
  pub name : String
  pub kind : String
  pub type : RepositoryType
  pub project_id : Option String
  pub owner : String
  pub display_name : String
  pub description : Option String
  pub tags : List String
  pub status : RepositoryStatus
  pub published_version : Option ℕ
  pub created_at : ℕ
  pub updated_at : ℕ

pub record RepositoryVersionRecord : Type 0 where
  pub id : String
  pub entry_id : String
  pub version : ℕ
  pub kind : String
  pub source_hash : String
  pub runner_image : String
  pub validation_proof : Fields
  pub approval_status : RepositoryStatus
  pub status : RepositoryStatus
  pub approved_by : Option String
  pub approved_at : Option ℕ
  pub published_at : Option ℕ
  pub created_at : ℕ
  pub updated_at : ℕ
