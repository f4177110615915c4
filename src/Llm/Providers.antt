-- ===== src/Llm/Providers.antt =====
-- The configured LLM providers (backend/src/modules/llm): a row of the table
-- `llm_provider_configs` as llmProviderConfig.model.ts selects it, without `updatedAt`, the inputs
-- of llmProviderConfig.types.ts, and the Prisma client over the table, a parameter with laws.
pub mod Repository
pub mod Commands
pub mod Defaults
mod Tests
use mathlib.Core.Option
use silo_core.Base.{
  ℕ, String, Bool, true, false, ◌≡◌, Option, none, some, List, ◌==◌, if◌then◌else◌,
}
use silo_core.Json.{Json}
use silo_core.Llm.Failure.{LlmProviderType, ollama, openai_compatible}

pub data LlmProviderConfigType : Type 0 where
  db_ollama db_openai_compatible : LlmProviderConfigType

pub data LlmDefaultSource : Type 0 where
  admin auto : LlmDefaultSource

pub data LlmDefaultSwitchReason : Type 0 where
  initial_selection provider_disabled provider_deleted availability_failure : LlmDefaultSwitchReason

pub record LlmProviderConfig : Type 0 where
  pub id : ℕ
  pub name : String
  pub config_type : LlmProviderConfigType
  pub base_url : String
  pub enabled : Bool
  pub is_default : Bool
  pub default_source : Option LlmDefaultSource
  pub default_model : String
  pub timeout_ms : Option ℕ
  pub generation_defaults : Json
  pub extra_headers : Option Json
  pub api_key : Option String
  pub deleted_at : Option ℕ
  pub created_at : ℕ

-- A field that may be left out is an `Option`; one that may also be null is one of an `Option`.
pub record LlmProviderConfigCreateInput : Type 0 where
  pub name : String
  pub config_type : LlmProviderType
  pub base_url : String
  pub enabled : Option Bool
  pub default_model : String
  pub timeout_ms : Option (Option ℕ)
  pub generation_defaults : Option Json
  pub extra_headers : Option Json
  pub api_key : Option (Option String)

pub record LlmProviderConfigUpdateInput : Type 0 where
  pub name : Option String
  pub config_type : Option LlmProviderType
  pub base_url : Option String
  pub enabled : Option Bool
  pub default_model : Option String
  pub timeout_ms : Option (Option ℕ)
  pub generation_defaults : Option Json
  pub extra_headers : Option Json
  pub api_key : Option (Option String)

unfoldable pub to_db_provider_type : LlmProviderType → LlmProviderConfigType
to_db_provider_type ollama = db_ollama
to_db_provider_type openai_compatible = db_openai_compatible

unfoldable pub from_db_provider_type : LlmProviderConfigType → LlmProviderType
from_db_provider_type db_ollama = ollama
from_db_provider_type db_openai_compatible = openai_compatible

-- The data of `llmProviderConfig.create`.
pub record ConfigData : Type 0 where
  pub name : String
  pub config_type : LlmProviderConfigType
  pub base_url : String
  pub enabled : Bool
  pub default_model : String
  pub timeout_ms : Option ℕ
  pub generation_defaults : Json
  pub extra_headers : Option Json
  pub api_key : Option String

-- A row of `llm_default_provider_switches`.
pub record ProviderSwitch : Type 0 where
  pub old_provider_id : Option ℕ
  pub new_provider_id : ℕ
  pub reason : LlmDefaultSwitchReason

pub data ConfigOrder : Type 0 where
  unordered newest_first oldest_first : ConfigOrder

abbrev pub KeepsId : (LlmProviderConfig → LlmProviderConfig) → Type 0
KeepsId f = (c : LlmProviderConfig) → (f c).id ≡ c.id

-- An update stands for the change that it makes to a row.
pub record Platform : Type 1 where
  pub Db : Type 0
  pub find_unique : Db → ℕ → Option LlmProviderConfig
  pub find_first : Db → (LlmProviderConfig → Bool) → ConfigOrder → Option LlmProviderConfig
  pub find_many : Db → (LlmProviderConfig → Bool) → ConfigOrder → List LlmProviderConfig
  pub count : Db → (LlmProviderConfig → Bool) → ℕ
  pub create : Db → ConfigData → LlmProviderConfig × Db
  pub update : Db → ℕ → (LlmProviderConfig → LlmProviderConfig) → Option LlmProviderConfig × Db
  pub update_many : Db → (LlmProviderConfig → Bool) → (LlmProviderConfig → LlmProviderConfig) → Db
  pub create_switch : Db → ProviderSwitch → Db
  -- the database once a transaction that began at the first and reached the second has thrown
  pub rollback : Db → Db → Db

-- What a created row has: the schema's defaults say that it is no default provider.
abbrev pub new_config : ℕ → ℕ → ConfigData → LlmProviderConfig
new_config id created_at d = record {
  id = id;
  name = d.name;
  config_type = d.config_type;
  base_url = d.base_url;
  enabled = d.enabled;
  is_default = false;
  default_source = none;
  default_model = d.default_model;
  timeout_ms = d.timeout_ms;
  generation_defaults = d.generation_defaults;
  extra_headers = d.extra_headers;
  api_key = d.api_key;
  deleted_at = none;
  created_at = created_at;
}

abbrev pub changed_where :
    (LlmProviderConfig → Bool)
    → (LlmProviderConfig → LlmProviderConfig)
    → LlmProviderConfig
    → LlmProviderConfig
changed_where q f c = if q c then f c else c

-- The documented behaviour of the client; failing connections are left out.
pub record IsPlatform (p : Platform) : Type 0 where
  pub row_id : (db : p.Db) (k : ℕ) (c : LlmProviderConfig) → p.find_unique db k ≡ some c → c.id ≡ k
  pub find_first_some :
      (db : p.Db) (q : LlmProviderConfig → Bool) (o : ConfigOrder) (c : LlmProviderConfig)
      → p.find_first db q o ≡ some c
      → (q c ≡ true) × (p.find_unique db c.id ≡ some c)
  pub find_first_none :
      (db : p.Db) (q : LlmProviderConfig → Bool) (o : ConfigOrder) (k : ℕ) (c : LlmProviderConfig)
      → p.find_first db q o ≡ none
      → p.find_unique db k ≡ some c
      → q c ≡ false
  pub create_row :
      (db : p.Db) (d : ConfigData)
      → (t : ℕ) × ((p.create db d).0 ≡ new_config (p.create db d).0.id t d)
  pub find-create :
      (db : p.Db) (d : ConfigData) (k : ℕ)
      → p.find_unique (p.create db d).1 k
        ≡ (if (p.create db d).0.id == k then some (p.create db d).0 else p.find_unique db k)
  pub update_reply :
      (db : p.Db) (k : ℕ) (f : LlmProviderConfig → LlmProviderConfig)
      → KeepsId f
      → (p.update db k f).0 ≡ Option.map f (p.find_unique db k)
  pub find-update :
      (db : p.Db) (k : ℕ) (f : LlmProviderConfig → LlmProviderConfig) (i : ℕ)
      → KeepsId f
      → p.find_unique (p.update db k f).1 i
        ≡ (if k == i then Option.map f (p.find_unique db i) else p.find_unique db i)
  pub find-update_many :
      (db : p.Db) (q : LlmProviderConfig → Bool) (f : LlmProviderConfig → LlmProviderConfig) (i : ℕ)
      → KeepsId f
      → p.find_unique (p.update_many db q f) i ≡ Option.map (changed_where q f) (p.find_unique db i)
  pub find-create_switch :
      (db : p.Db) (s : ProviderSwitch) (k : ℕ)
      → p.find_unique (p.create_switch db s) k ≡ p.find_unique db k
  pub find-rollback :
      (before after : p.Db) (k : ℕ)
      → p.find_unique (p.rollback before after) k ≡ p.find_unique before k
