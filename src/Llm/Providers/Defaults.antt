-- ===== src/Llm/Providers/Defaults.antt =====
-- llmProviderConfig.repository.ts: at most one provider is the default, and it can be used. These
-- are the constraints of the migration 20261026000100_default_llm_provider, which the laws of the
-- client leave out, so that the code has to keep them by itself.
pub mod Rows
pub mod Selection
pub mod Switching
pub mod Runs
use silo_core.Base.{
  ℕ, Bool, true, false, not, ◌&&◌, ◌≡◌, Option, none, some, is_some, if◌then◌else◌,
}
use silo_core.Llm.Providers.{LlmProviderConfig, Platform}
use silo_core.Llm.Providers.Repository.{is_active}

-- `llm_provider_configs_default_state_check`
unfoldable pub state_check : LlmProviderConfig → Bool
state_check c =
    if c.is_default then is_some c.default_source && is_active c else not (is_some c.default_source)

-- The row with the id is a default provider.
pub record IsDefault (p : Platform) (db : p.Db) (k : ℕ) (c : LlmProviderConfig) : Type 0 where
  pub found : p.find_unique db k ≡ some c
  pub marked : c.is_default ≡ true

pub record IsChecked (p : Platform) (db : p.Db) : Type 0 where
  pub checked : (k : ℕ) (c : LlmProviderConfig) → p.find_unique db k ≡ some c → state_check c ≡ true

-- `llm_provider_configs_one_default_idx`
pub record IsSingle (p : Platform) (db : p.Db) : Type 0 where
  pub single : (i j : ℕ) (c d : LlmProviderConfig) → IsDefault p db i c → IsDefault p db j d → i ≡ j

pub record IsSound (p : Platform) (db : p.Db) : Type 0 where
  pub rows_checked : IsChecked p db
  pub one_default : IsSingle p db

pub record NoDefault (p : Platform) (db : p.Db) : Type 0 where
  pub unmarked :
      (k : ℕ) (c : LlmProviderConfig) → p.find_unique db k ≡ some c → c.is_default ≡ false

pub record SameRows (p : Platform) (db db' : p.Db) : Type 0 where
  pub rows : (k : ℕ) → p.find_unique db' k ≡ p.find_unique db k
