-- ===== src/Llm/Providers/Commands.antt =====
-- The calls of llmProviderConfig.repository.ts that change the table, as commands, and their runs.
use silo_core.Base.{ℕ, List, [], ◌∷◌}
use silo_core.Llm.Providers.{LlmProviderConfigCreateInput, LlmProviderConfigUpdateInput, Platform}
use silo_core.Llm.Providers.Repository

pub data Command : Type 0 where
  create_config : LlmProviderConfigCreateInput → Command
  get_or_select_default : Command
  set_default : ℕ → Command
  promote_default : ℕ → ℕ → Command
  update_provider : ℕ → LlmProviderConfigUpdateInput → Command
  soft_delete : ℕ → ℕ → Command

module _ (p : Platform) where
  -- the database after the call, whether it returns or throws
  unfoldable pub apply : Command → p.Db → p.Db
  apply (create_config d) db = (Repository.create_config p d db).1
  apply get_or_select_default db = (Repository.get_or_select_default p db).1
  apply (set_default id) db = (Repository.set_default p id db).1
  apply (promote_default from_id to_id) db = (Repository.promote_default p from_id to_id db).1
  apply (update_provider id d) db = (Repository.update_provider p id d db).1
  apply (soft_delete id now) db = (Repository.soft_delete p id now db).1

  abbrev pub run : List Command → p.Db → p.Db
  run [] db = db
  run (c ∷ cs) db = run cs (apply c db)
