-- ===== src/Llm/Providers/Defaults/Runs.antt =====
-- `update`, `softDelete` and `create`, and every sequence of calls.
use silo_core.Base.{
  ℕ, Bool, true, false, ◌≡◌, ◌≢◌, ◌&&◌, ◌∙◌, sym, ap, refl, inl, inr, Option, none, some, List, [],
  ◌∷◌, if_true, if_false, ◌==◌, Bool-cases, arith, subst, ◌⊎◌,
}
use silo_core.Errors.{Error, Result}
use silo_core.Exec.{after, pure, ◌>>◌}
use silo_core.Exec.Ends.{Ends, returned, thrown, Ends-after, Ends-if, Ends-weaken}
use silo_core.Llm.Providers.{
  LlmProviderConfig, LlmProviderConfigUpdateInput, Platform, IsPlatform, ConfigData, new_config,
  provider_disabled, provider_deleted, initial_selection,
}
use silo_core.Llm.Providers.Repository.{
  is_active, is_false, removes_default, to_updated_and_removed, to_deleted, current_default,
  restore_default, update_locked, replace_deleted, soft_delete_locked, create_config, update_config,
}
use silo_core.Llm.Providers.Repository as Code
use silo_core.Llm.Providers.Commands.{
  Command, create_config as creates, get_or_select_default, set_default, promote_default,
  update_provider, soft_delete, apply, run,
}
use silo_core.Llm.Providers.Defaults.{
  IsDefault, IsSound, IsChecked, NoDefault, SameRows, state_check,
}
use silo_core.Llm.Providers.Defaults.Rows.{
  SameRows-IsSound, update-IsChecked, update-IsSingle, lowered-NoDefault, new-check,
}
use silo_core.Llm.Providers.Defaults.Selection.{
  Chosen, transaction-Ends, update_config-Ends, select_automatic-Ends, or_select-Ends,
  get_or_select_default_chooses, some-injective,
}
use silo_core.Llm.Providers.Defaults.Switching.{set_default_outcome, promote_default_outcome}

-- A change that keeps the flag and its source keeps the check, unless it disables the default.
check_if :
    (b : Bool) (e : Option Bool) (c : LlmProviderConfig) (d : LlmProviderConfigUpdateInput)
    → c.is_default ≡ b
    → d.enabled ≡ e
    → state_check c ≡ true
    → state_check (to_updated_and_removed (b && is_false e) d c) ≡ true
unfolding state_check
check_if true none c d f g h = ground arith
check_if true (some true) c d f g h = ground arith
check_if true (some false) c d f g h = refl
check_if false e c d f g h = ground arith

updated-check :
    (c : LlmProviderConfig) (d : LlmProviderConfigUpdateInput)
    → state_check c ≡ true
    → state_check (to_updated_and_removed (removes_default (some c) d) d c) ≡ true
updated-check c d h = check_if c.is_default d.enabled c d refl refl h

created-check :
    (c : LlmProviderConfig) (id t : ℕ) (d : ConfigData)
    → c ≡ new_config id t d
    → state_check c ≡ true
created-check c id t d e = ap state_check e ∙ new-check id t d

updated-marked :
    (b : Bool) (c : LlmProviderConfig) (d : LlmProviderConfigUpdateInput)
    → (to_updated_and_removed b d c).is_default ≡ true
    → c.is_default ≡ true
updated-marked true c d e = cc
updated-marked false c d e = e

updated-id :
    (b : Bool) (c : LlmProviderConfig) (d : LlmProviderConfigUpdateInput)
    → (to_updated_and_removed b d c).id ≡ c.id
updated-id true c d = refl
updated-id false c d = refl

-- What an update leaves: the constraints, and a default provider unless none is active.
pub record Served (p : Platform) (db : p.Db) : Type 0 where
  pub sound : IsSound p db
  pub reply : Option LlmProviderConfig
  pub served : Chosen p reply db

module _ (p : Platform) (laws : IsPlatform p) where
  removed-marked :
      (c : LlmProviderConfig) (d : LlmProviderConfigUpdateInput)
      → removes_default (some c) d ≡ true
      → c.is_default ≡ true
  removed-marked c d e = ground arith

  updated-IsChecked :
      (db : p.Db) (id : ℕ) (c : LlmProviderConfig) (d : LlmProviderConfigUpdateInput) (b : Bool)
      → removes_default (some c) d ≡ b
      → IsSound p db
      → p.find_unique db id ≡ some c
      → IsChecked p (p.update db id (to_updated_and_removed b d)).1
  updated-IsChecked db id c d b e sound found =
      update-IsChecked p laws db id (to_updated_and_removed b d) (λ c'. updated-id b c' d)
        sound.rows_checked
        (λ c' found'.
          let same = some-injective c' c (sym found' ∙ found) in
          ap (λ x. state_check (to_updated_and_removed b d x)) same
          ∙ ap (λ x. state_check (to_updated_and_removed x d c)) (sym e)
          ∙ updated-check c d (sound.rows_checked.checked id c found))

  restore_default-Ends :
      (db : p.Db) (id : ℕ) (c : LlmProviderConfig) (d : LlmProviderConfigUpdateInput) (b : Bool)
      → removes_default (some c) d ≡ b
      → IsSound p db
      → p.find_unique db id ≡ some c
      → Ends
          (λ reply s. IsSound p s × Chosen p reply s)
          (λ _ _. ⊥)
          (restore_default p id b (p.update db id (to_updated_and_removed b d)).1)
  unfolding restore_default
  restore_default-Ends db id c d true e sound found =
      let f = to_updated_and_removed true d in
      select_automatic-Ends p laws (some id) provider_disabled (p.update db id f).1
        (lowered-NoDefault p laws db id f c (λ _. refl) sound.one_default
          (record { found = found; marked = removed-marked c d e }) (λ _. refl))
        (updated-IsChecked db id c d true e sound found)
  restore_default-Ends db id c d false e sound found =
      let f = to_updated_and_removed false d in
      let s = (p.update db id f).1 in
      or_select-Ends p laws none initial_selection s (current_default p s) refl (record {
        rows_checked = updated-IsChecked db id c d false e sound found;
        one_default = update-IsSingle p laws db id f (λ _. refl) sound.one_default (λ _ h. h);
      })

  update_row-Ends :
      (db : p.Db) (id : ℕ) (o : Option LlmProviderConfig) (d : LlmProviderConfigUpdateInput)
      → p.find_unique db id ≡ o
      → IsSound p db
      → Ends
          (λ _ s. Served p s × (p.find_unique db id ≢ none))
          (λ _ _. p.find_unique db id ≡ none)
          (after
            (update_config p id (to_updated_and_removed (removes_default o d) d) db)
            (λ result. restore_default p id (removes_default o d) >> pure result))
  update_row-Ends db id none d e sound =
      Ends-after {R = λ _ _. ⊥} _ _
        (update_config-Ends p laws db id (to_updated_and_removed false d) (λ _. refl)
          (λ c found. let h = e in cc) (λ gone _. gone))
        (λ _ _ h. elim h [ ])
  update_row-Ends db id (some c) d e sound =
      let b = removes_default (some c) d in
      Ends-after {R = λ _ s. s ≡ (p.update db id (to_updated_and_removed b d)).1} _ _
        (update_config-Ends p laws db id (to_updated_and_removed b d) (λ c'. updated-id b c' d)
          (λ _ _. refl) (λ gone _. gone))
        (λ result s here.
          Ends-after {R = λ reply t. IsSound p t × Chosen p reply t} _ _
            (subst
              (λ t.
                Ends (λ reply s. IsSound p s × Chosen p reply s) (λ _ _. p.find_unique db id ≡ none)
                  (restore_default p id b t))
              (sym here)
              (Ends-weaken _ (restore_default-Ends db id c d b refl sound e) (λ _ _ h. h)
                (λ _ _ h. elim h [ ])))
            (λ reply t h.
              returned result t refl (
                record { sound = h.0; reply = reply; served = h.1 },
                (λ gone. let there = e in cc),
              )))

  -- Over a table that keeps its constraints, `update` of a provider that is there returns and keeps
  -- them, and leaves a default provider unless none is active. For an id without a provider it
  -- throws and the rows stay as they were.
  pub update_provider_outcome :
      (db : p.Db) (id : ℕ) (d : LlmProviderConfigUpdateInput)
      → IsSound p db
      → Ends
          (λ _ s. Served p s × (p.find_unique db id ≢ none))
          (λ _ s. SameRows p db s × (p.find_unique db id ≡ none))
          (Code.update_provider p id d db)
  unfolding Code.update_provider update_locked
  update_provider_outcome db id d sound =
      transaction-Ends p db (update_locked p id d)
        (update_row-Ends db id (p.find_unique db id) d refl sound)
        (λ _ s gone. (record { rows = laws.find-rollback db s }, gone))

  deleted-NoDefault :
      (db : p.Db) (id now : ℕ) (c : LlmProviderConfig)
      → IsSound p db
      → IsDefault p db id c
      → NoDefault p (p.update db id (to_deleted now)).1
  deleted-NoDefault db id now c sound h =
      lowered-NoDefault p laws db id (to_deleted now) c (λ _. refl) sound.one_default h (λ _. refl)

  deleted-IsSound :
      (db : p.Db) (id now : ℕ) → IsSound p db → IsSound p (p.update db id (to_deleted now)).1
  unfolding state_check
  deleted-IsSound db id now sound = record {
    rows_checked =
        update-IsChecked p laws db id (to_deleted now) (λ _. refl) sound.rows_checked (λ _ _. refl);
    one_default =
        update-IsSingle p laws db id (to_deleted now) (λ _. refl) sound.one_default (λ _ h. cc);
  }

  replaced-Ends :
      (db : p.Db) (id now : ℕ) (o : Option LlmProviderConfig)
      → p.find_unique db id ≡ o
      → IsSound p db
      → Ends
          (λ _ s. IsSound p s)
          (λ _ _. ⊥)
          (replace_deleted p id o (p.update db id (to_deleted now)).1)
  unfolding replace_deleted
  replaced-Ends db id now none e sound = returned none _ refl (deleted-IsSound db id now sound)
  replaced-Ends db id now (some c) e sound =
      Ends-if c.is_default _ _ _
        (λ marked.
          Ends-weaken _
            (select_automatic-Ends p laws (some id) provider_deleted _
              (deleted-NoDefault db id now c sound (record { found = e; marked = marked }))
              (deleted-IsSound db id now sound).rows_checked)
            (λ _ _ h. h.0) (λ _ _ h. h))
        (λ _. returned none _ refl (deleted-IsSound db id now sound))

  soft_delete-Ends :
      (db : p.Db) (id now : ℕ)
      → IsSound p db
      → Ends (λ _ s. IsSound p s) (λ _ s. IsSound p s) (Code.soft_delete p id now db)
  unfolding Code.soft_delete soft_delete_locked
  soft_delete-Ends db id now sound =
      transaction-Ends p db (soft_delete_locked p id now)
        (Ends-after {R = λ _ s. s ≡ (p.update db id (to_deleted now)).1} _ _
          (update_config-Ends p laws db id (to_deleted now) (λ _. refl) (λ _ _. refl) (λ _ _. tt))
          (λ result s here.
            Ends-after {R = λ _ t. IsSound p t} _ _
              (subst
                (λ t.
                  Ends (λ _ s. IsSound p s) (λ _ _. Unit {0})
                    (replace_deleted p id (p.find_unique db id) t))
                (sym here)
                (Ends-weaken _ (replaced-Ends db id now (p.find_unique db id) refl sound)
                  (λ _ _ h. h) (λ _ _ h. elim h [ ])))
              (λ _ t h. returned result t refl h)))
        (λ _ s _. SameRows-IsSound p db _ (record { rows = laws.find-rollback db s }) sound)

  created_row-cases :
      (db : p.Db) (d : ConfigData) (i : ℕ) (c : LlmProviderConfig)
      → p.find_unique (p.create db d).1 i ≡ some c
      → ((c ≡ (p.create db d).0)) ⊎ (p.find_unique db i ≡ some c)
  created_row-cases db d i c e = elim (Bool-cases ((p.create db d).0.id == i)) [
    | inl same ↦ inl (some-injective c _ (sym e ∙ laws.find-create db d i ∙ if_true _ _ same))
    | inr differs ↦ inr (sym (if_false _ _ differs) ∙ sym (laws.find-create db d i) ∙ e)
  ]

  created-IsSound : (db : p.Db) (d : ConfigData) → IsSound p db → IsSound p (p.create db d).1
  created-IsSound db d sound =
      let (t, new) = laws.create_row db d in
      let old : (i : ℕ) (c : LlmProviderConfig)
          → IsDefault p (p.create db d).1 i c
          → IsDefault p db i c =
        λ i c h. elim (created_row-cases db d i c h.found) [
          | inl same ↦
              let marked = h.marked in
              let unmarked : c.is_default ≡ false = ap LlmProviderConfig.is_default (same ∙ new) in
              cc
          | inr found ↦ record { found = found; marked = h.marked }
        ] in
      record {
        rows_checked = record {
          checked = λ i c e. elim (created_row-cases db d i c e) [
            | inl same ↦ created-check c _ t d (same ∙ new)
            | inr found ↦ sound.rows_checked.checked i c found
          ];
        };
        one_default = record {
          single = λ i j c e h g. sound.one_default.single i j c e (old i c h) (old j e g);
        };
      }

  ended :
      {A : Type 0} {Q : A → p.Db → Type 0} {E : Error → p.Db → Type 0} (r : Result A × p.Db)
      → Ends Q E r
      → ((a : A) (s : p.Db) → Q a s → IsSound p s)
      → ((e : Error) (s : p.Db) → E e s → IsSound p s)
      → IsSound p r.1
  ended r (returned a s eq h) f g = subst (IsSound p) (ap (λ x. x.1) (sym eq)) (f a s h)
  ended r (thrown e s eq h) f g = subst (IsSound p) (ap (λ x. x.1) (sym eq)) (g e s h)

  apply-IsSound : (c : Command) (db : p.Db) → IsSound p db → IsSound p (apply p c db)
  unfolding apply create_config
  apply-IsSound (creates d) db sound = created-IsSound db _ sound
  apply-IsSound get_or_select_default db sound =
      ended _ (get_or_select_default_chooses p laws db sound) (λ _ _ h. h.0) (λ _ _ h. elim h [ ])
  apply-IsSound (set_default id) db sound =
      ended _ (set_default_outcome p laws db id sound) (λ _ _ h. h.0) (λ _ _ h. elim h [ ])
  apply-IsSound (promote_default from_id to_id) db sound =
      ended _ (promote_default_outcome p laws db from_id to_id sound) (λ _ _ h. h.0)
        (λ _ _ h. elim h [ ])
  apply-IsSound (update_provider id d) db sound =
      ended _ (update_provider_outcome db id d sound) (λ _ _ h. h.0.sound)
        (λ _ s h. SameRows-IsSound p db s h.0 sound)
  apply-IsSound (soft_delete id now) db sound =
      ended _ (soft_delete-Ends db id now sound) (λ _ _ h. h) (λ _ _ h. h)

  -- Over a table that keeps its constraints, every sequence of calls of the repository, those that
  -- throw included, leaves one that keeps them: at most one provider is the default, it is enabled,
  -- not deleted and has a source, and no other provider has one.
  pub run-IsSound : (cs : List Command) (db : p.Db) → IsSound p db → IsSound p (run p cs db)
  run-IsSound [] db sound = sound
  run-IsSound (c ∷ cs) db sound = run-IsSound cs (apply p c db) (apply-IsSound c db sound)
