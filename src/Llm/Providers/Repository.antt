-- ===== src/Llm/Providers/Repository.antt =====
-- llmProviderConfig.repository.ts. A transaction that takes the advisory lock runs alone, so it is
-- one step; the lock itself leaves no trace in the database.
use silo_core.Base.{
  ℕ, Bool, true, false, not, ◌&&◌, ◌||◌, ◌==◌, Option, none, some, List, or_else, is_some,
  if◌then◌else◌,
}
use silo_core.Json.{Json, object, end}
use silo_core.Errors.{Result, ok, err, external}
use silo_core.Exec.{Exec, pure, ◌>>=◌, ◌>>◌}
use silo_core.Llm.Providers.{
  LlmProviderConfig, LlmProviderConfigCreateInput, LlmProviderConfigUpdateInput, Platform, admin,
  auto, LlmDefaultSwitchReason, initial_selection, provider_disabled, provider_deleted,
  availability_failure, newest_first, oldest_first, unordered, to_db_provider_type, ProviderSwitch,
}

-- `toJsonObject`: null counts as an empty object, as does what is no object.
unfoldable pub to_json_object : Option Json → Option Json
to_json_object none = none
to_json_object (some (object fields)) = some (object fields)
to_json_object (some _) = some (object end)

abbrev pub is_active : LlmProviderConfig → Bool
is_active c = c.enabled && not (is_some c.deleted_at)

abbrev pub is_not_deleted : LlmProviderConfig → Bool
is_not_deleted c = not (is_some c.deleted_at)

abbrev pub is_default_row : LlmProviderConfig → Bool
is_default_row c = c.is_default

-- The update inputs, as changes of a row.
abbrev pub to_auto_default : LlmProviderConfig → LlmProviderConfig
to_auto_default c = record c { is_default = true; default_source = some auto }

abbrev pub to_admin_default : LlmProviderConfig → LlmProviderConfig
to_admin_default c = record c { is_default = true; default_source = some admin }

abbrev pub to_no_default : LlmProviderConfig → LlmProviderConfig
to_no_default c = record c { is_default = false; default_source = none }

abbrev pub to_deleted : ℕ → LlmProviderConfig → LlmProviderConfig
to_deleted deleted_at c = record c {
  enabled = false;
  deleted_at = some deleted_at;
  is_default = false;
  default_source = none;
}

abbrev kept_header : Option Json → Option Json → Option Json
kept_header none old = old
kept_header (some v) old = some v

-- The fields of `updateData` that are no part of the default: a field left out stays.
abbrev pub to_updated : LlmProviderConfigUpdateInput → LlmProviderConfig → LlmProviderConfig
to_updated d c = record c {
  name = or_else d.name c.name;
  config_type = elim d.config_type [ none ↦ c.config_type | some t ↦ to_db_provider_type t ];
  base_url = or_else d.base_url c.base_url;
  enabled = or_else d.enabled c.enabled;
  default_model = or_else d.default_model c.default_model;
  timeout_ms = or_else d.timeout_ms c.timeout_ms;
  generation_defaults = or_else (to_json_object d.generation_defaults) c.generation_defaults;
  extra_headers = kept_header d.extra_headers c.extra_headers;
  api_key = or_else d.api_key c.api_key;
}

abbrev pub is_false : Option Bool → Bool
is_false (some false) = true
is_false _ = false

-- `current?.isDefault && data.enabled === false`
abbrev pub removes_default : Option LlmProviderConfig → LlmProviderConfigUpdateInput → Bool
removes_default none d = false
removes_default (some c) d = c.is_default && is_false d.enabled

abbrev pub to_updated_and_removed :
    Bool → LlmProviderConfigUpdateInput → LlmProviderConfig → LlmProviderConfig
to_updated_and_removed true d c = to_no_default (to_updated d c)
to_updated_and_removed false d c = to_updated d c

-- `!target || !target.enabled || target.deletedAt`, for a target that is not there too
abbrev pub is_no_target : Option LlmProviderConfig → Bool
is_no_target none = true
is_no_target (some c) = not c.enabled || is_some c.deleted_at

-- `current?.id !== fromId`
abbrev pub is_other : Option LlmProviderConfig → ℕ → Bool
is_other none id = true
is_other (some c) id = not (c.id == id)

module _ (p : Platform) where
  open p use {
    Db, find_unique, find_first, find_many, count, create, update, update_many, create_switch,
    rollback,
  }

  abbrev pub updated : Option LlmProviderConfig × Db → Result LlmProviderConfig × Db
  updated (none, db) = (err (external "P2025"), db)
  updated (some c, db) = (ok c, db)

  unfoldable pub update_config :
      ℕ → (LlmProviderConfig → LlmProviderConfig) → Exec Db LlmProviderConfig
  update_config id change db = updated (update db id change)

  abbrev pub committed : {A : Type 0} → Db → Result A × Db → Result A × Db
  committed before (ok a, db) = (ok a, db)
  committed before (err e, db) = (err e, rollback before db)

  -- `prisma.$transaction`
  abbrev pub transaction : {A : Type 0} → Exec Db A → Exec Db A
  transaction body db = committed db (body db)

  abbrev pub current_default : Db → Option LlmProviderConfig
  current_default db = find_first db is_default_row unordered

  abbrev pub first_active : Db → Option LlmProviderConfig
  first_active db = find_first db is_active oldest_first

  abbrev pub read : {A : Type 0} → (Db → A) → Exec Db A
  read f db = (ok (f db), db)

  unfoldable pub record_switch : ProviderSwitch → Exec Db (Unit {0})
  record_switch s db = (ok tt, create_switch db s)

  unfoldable pub select_next :
      Option ℕ
      → LlmDefaultSwitchReason
      → Option LlmProviderConfig
      → Exec Db (Option LlmProviderConfig)
  select_next old_provider_id reason none = pure none
  select_next old_provider_id reason (some next) = do
    selected ← update_config next.id to_auto_default
    record_switch (record {
      old_provider_id = old_provider_id;
      new_provider_id = selected.id;
      reason = reason;
    })
    pure (some selected)

  unfoldable pub select_automatic :
      Option ℕ → LlmDefaultSwitchReason → Exec Db (Option LlmProviderConfig)
  unfolding select_next
  select_automatic old_provider_id reason = do
    next ← read first_active
    select_next old_provider_id reason next

  unfoldable pub create_config : LlmProviderConfigCreateInput → Exec Db LlmProviderConfig
  create_config d db =
      let (c, db') = create db (record {
        name = d.name;
        config_type = to_db_provider_type d.config_type;
        base_url = d.base_url;
        enabled = or_else d.enabled true;
        default_model = d.default_model;
        timeout_ms = or_else d.timeout_ms none;
        generation_defaults =
            or_else (to_json_object (some (or_else d.generation_defaults (object end))))
              (object end);
        extra_headers = d.extra_headers;
        api_key = or_else d.api_key none;
      }) in
      (ok c, db')

  unfoldable pub find_all : Bool → Exec Db (List LlmProviderConfig)
  find_all include_deleted =
      read (λ db. find_many db (λ c. include_deleted || is_not_deleted c) newest_first)

  unfoldable pub find_active : Exec Db (List LlmProviderConfig)
  find_active = read (λ db. find_many db is_active oldest_first)

  unfoldable pub find_by_id : ℕ → Exec Db (Option LlmProviderConfig)
  find_by_id id = read (λ db. find_unique db id)

  unfoldable pub count_active : Exec Db ℕ
  count_active = read (λ db. count db is_not_deleted)

  -- The default, or else one that is selected now.
  unfoldable pub or_select :
      Option ℕ
      → LlmDefaultSwitchReason
      → Option LlmProviderConfig
      → Exec Db (Option LlmProviderConfig)
  or_select old_provider_id reason (some current) = pure (some current)
  or_select old_provider_id reason none = select_automatic old_provider_id reason

  unfoldable pub select_locked : Exec Db (Option LlmProviderConfig)
  unfolding or_select
  select_locked = do current ← read current_default; or_select none initial_selection current

  unfoldable pub select_if_none : Option LlmProviderConfig → Exec Db (Option LlmProviderConfig)
  unfolding select_locked
  select_if_none (some selected) = pure (some selected)
  select_if_none none = transaction select_locked

  unfoldable pub get_or_select_default : Exec Db (Option LlmProviderConfig)
  unfolding select_if_none
  get_or_select_default = do selected ← read current_default; select_if_none selected

  unfoldable pub make_default : ℕ → Exec Db (Option LlmProviderConfig)
  make_default id = do c ← update_config id to_admin_default; pure (some c)

  unfoldable pub set_default_locked : ℕ → Exec Db (Option LlmProviderConfig)
  unfolding make_default
  set_default_locked id db =
      if is_no_target (find_unique db id)
      then (ok none, db)
      else make_default id (update_many db is_default_row to_no_default)

  unfoldable pub set_default : ℕ → Exec Db (Option LlmProviderConfig)
  unfolding set_default_locked
  set_default id = transaction (set_default_locked id)

  unfoldable pub switch_default : ℕ → ℕ → Exec Db Bool
  switch_default from_id to_id = do
    update_config from_id to_no_default
    update_config to_id to_auto_default
    record_switch (record {
      old_provider_id = some from_id;
      new_provider_id = to_id;
      reason = availability_failure;
    })
    pure true

  unfoldable pub promote_locked : ℕ → ℕ → Exec Db Bool
  unfolding switch_default
  promote_locked from_id to_id db =
      if is_other (current_default db) from_id
        || (is_no_target (find_unique db to_id) || from_id == to_id)
      then (ok false, db)
      else switch_default from_id to_id db

  unfoldable pub promote_default : ℕ → ℕ → Exec Db Bool
  unfolding promote_locked
  promote_default from_id to_id = transaction (promote_locked from_id to_id)

  -- What `update` does once the row is changed, by whether that removed the default.
  unfoldable pub restore_default : ℕ → Bool → Exec Db (Option LlmProviderConfig)
  restore_default id true = select_automatic (some id) provider_disabled
  restore_default id false = do
    current ← read current_default
    or_select none initial_selection current

  unfoldable pub update_locked : ℕ → LlmProviderConfigUpdateInput → Exec Db LlmProviderConfig
  unfolding restore_default
  update_locked id d = do
    current ← read (λ db. find_unique db id)
    result ← update_config id (to_updated_and_removed (removes_default current d) d)
    restore_default id (removes_default current d)
    pure result

  unfoldable pub update_provider : ℕ → LlmProviderConfigUpdateInput → Exec Db LlmProviderConfig
  unfolding update_locked
  update_provider id d = transaction (update_locked id d)

  unfoldable pub replace_deleted : ℕ → Option LlmProviderConfig → Exec Db (Option LlmProviderConfig)
  replace_deleted id none = pure none
  replace_deleted id (some c) =
      if c.is_default then select_automatic (some id) provider_deleted else pure none

  unfoldable pub soft_delete_locked : ℕ → ℕ → Exec Db LlmProviderConfig
  unfolding replace_deleted
  soft_delete_locked id now = do
    current ← read (λ db. find_unique db id)
    result ← update_config id (to_deleted now)
    replace_deleted id current
    pure result

  -- `now` is the time of `new Date()`.
  unfoldable pub soft_delete : ℕ → ℕ → Exec Db LlmProviderConfig
  unfolding soft_delete_locked
  soft_delete id now = transaction (soft_delete_locked id now)
