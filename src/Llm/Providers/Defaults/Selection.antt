-- ===== src/Llm/Providers/Defaults/Selection.antt =====
-- How a default provider is selected where there is none.
use mathlib.Core.Option
use silo_core.Base.{
  ℕ, true, false, ◌≡◌, ◌∙◌, sym, ap, refl, inl, inr, Option, none, some, Option-cases,
}
use silo_core.Errors.{Error, ok, err, external}
use silo_core.Exec.{Exec}
use silo_core.Exec.Ends.{Ends, returned, thrown, Ends-after}
use silo_core.Llm.Providers.{
  LlmProviderConfig, Platform, IsPlatform, KeepsId, LlmDefaultSwitchReason, ProviderSwitch,
  initial_selection,
}
use silo_core.Llm.Providers.Repository.{
  is_active, to_auto_default, updated, update_config, committed, transaction, first_active,
  current_default, record_switch, select_next, select_automatic, or_select, select_locked,
  select_if_none, get_or_select_default,
}
use silo_core.Llm.Providers.Defaults.{
  IsDefault, IsSound, IsChecked, NoDefault, SameRows, state_check,
}
use silo_core.Llm.Providers.Defaults.Rows.{
  SameRows-IsSound, IsSound-active, NoDefault-IsSingle, update-found, marked-check,
  update-IsChecked, raised-IsSingle, none-NoDefault,
}

-- A reply that names the default provider, one that can be used.
pub record IsChosen (p : Platform) (db : p.Db) (c : LlmProviderConfig) : Type 0 where
  pub default : IsDefault p db c.id c
  pub active : is_active c ≡ true

-- What a selection replies, of the database that it leaves.
pub data Chosen (p : Platform) (reply : Option LlmProviderConfig) (db : p.Db) : Type 0 where
  nobody :
      reply ≡ none
      → ((k : ℕ) (c : LlmProviderConfig) → p.find_unique db k ≡ some c → is_active c ≡ false)
      → Chosen p reply db
  chosen : (c : LlmProviderConfig) → reply ≡ some c → IsChosen p db c → Chosen p reply db

pub some-injective : (c d : LlmProviderConfig) → some c ≡ some d → c ≡ d
some-injective c d e = cc

module _ (p : Platform) where
  updated-some :
      (r : Option LlmProviderConfig × p.Db) (c : LlmProviderConfig)
      → r.0 ≡ some c
      → updated p r ≡ (ok c, r.1)
  updated-some (none, db) c e = cc
  updated-some (some v, db) c e = cc

  updated-none :
      (r : Option LlmProviderConfig × p.Db)
      → r.0 ≡ none
      → updated p r ≡ (err (external "P2025"), r.1)
  updated-none (none, db) e = refl
  updated-none (some v, db) e = cc

  pub transaction-Ends :
      {A : Type 0} {Q : A → p.Db → Type 0} {E E' : Error → p.Db → Type 0} (db : p.Db)
      (body : Exec p.Db A)
      → Ends Q E' (body db)
      → ((e : Error) (s : p.Db) → E' e s → E e (p.rollback db s))
      → Ends Q E (transaction p body db)
  transaction-Ends db body (returned a s eq h) f = returned a s (ap (committed p db) eq) h
  transaction-Ends db body (thrown e s eq h) f =
      thrown e (p.rollback db s) (ap (committed p db) eq) (f e s h)

module _ (p : Platform) (laws : IsPlatform p) where
  pub update_config-Ends :
      {Q : LlmProviderConfig → p.Db → Type 0} {E : Error → p.Db → Type 0} (db : p.Db) (k : ℕ)
      (f : LlmProviderConfig → LlmProviderConfig)
      → KeepsId f
      → ((c : LlmProviderConfig) → p.find_unique db k ≡ some c → Q (f c) (p.update db k f).1)
      → (p.find_unique db k ≡ none → (e : Error) → E e (p.update db k f).1)
      → Ends Q E (update_config p k f db)
  unfolding update_config
  update_config-Ends db k f keeps there missing = elim (Option-cases (p.find_unique db k)) [
    | inl gone ↦
        thrown (external "P2025") _
          (updated-none p _ (laws.update_reply db k f keeps ∙ ap (Option.map f) gone))
          (missing gone _)
    | inr (c, found) ↦
        returned (f c) _
          (updated-some p _ (f c) (laws.update_reply db k f keeps ∙ ap (Option.map f) found))
          (there c found)
  ]

  pub switched-SameRows : (db : p.Db) (s : ProviderSwitch) → SameRows p db (p.create_switch db s)
  switched-SameRows db s = record { rows = laws.find-create_switch db s }

  pub SameRows-IsChosen :
      (db db' : p.Db) (c : LlmProviderConfig)
      → SameRows p db db'
      → IsChosen p db c
      → IsChosen p db' c
  SameRows-IsChosen db db' c same h = record {
    default = record { found = same.rows c.id ∙ h.default.found; marked = h.default.marked };
    active = h.active;
  }

  pub update-IsChosen :
      (db : p.Db) (k : ℕ) (f : LlmProviderConfig → LlmProviderConfig) (c : LlmProviderConfig)
      → KeepsId f
      → p.find_unique db k ≡ some c
      → (f c).is_default ≡ true
      → is_active (f c) ≡ true
      → IsChosen p (p.update db k f).1 (f c)
  update-IsChosen db k f c keeps found marked active = record {
    default = record { found = update-found p laws db k f c keeps found; marked = marked };
    active = active;
  }

  -- A usable row becomes the default where there is none.
  pub raised-IsSound :
      (db : p.Db) (k : ℕ) (f : LlmProviderConfig → LlmProviderConfig)
      → KeepsId f
      → NoDefault p db
      → IsChecked p db
      → ((c : LlmProviderConfig) → p.find_unique db k ≡ some c → state_check (f c) ≡ true)
      → IsSound p (p.update db k f).1
  raised-IsSound db k f keeps clear good checks = record {
    rows_checked = update-IsChecked p laws db k f keeps good checks;
    one_default = raised-IsSingle p laws db k f keeps clear;
  }

  select_next-Ends :
      (old : Option ℕ) (reason : LlmDefaultSwitchReason) (db : p.Db)
      (next : Option LlmProviderConfig)
      → first_active p db ≡ next
      → NoDefault p db
      → IsChecked p db
      → Ends
          (λ reply s. IsSound p s × Chosen p reply s)
          (λ _ _. ⊥)
          (select_next p old reason next db)
  unfolding select_next record_switch
  select_next-Ends old reason db none e clear good = returned none db refl (
    record { rows_checked = good; one_default = NoDefault-IsSingle p db clear },
    nobody refl (λ k c found. laws.find_first_none db _ _ k c e found),
  )
  select_next-Ends old reason db (some c) e clear good =
      let (active, there) = laws.find_first_some db _ _ c e in
      let same : (d : LlmProviderConfig) → p.find_unique db c.id ≡ some d → is_active d ≡ true =
        λ d found. ap is_active (some-injective d c (sym found ∙ there)) ∙ active in
      Ends-after {R = λ d s. IsSound p s × IsChosen p s d} _ _
        (update_config-Ends db c.id to_auto_default (λ _. refl)
          (λ d found. (
            raised-IsSound db c.id to_auto_default (λ _. refl) clear good
                (λ d' found'. (marked-check d' (same d' found')).0),
            update-IsChosen db c.id to_auto_default d (λ _. refl) found refl (same d found),
          ))
          (λ gone _. let absurd : ⊥ = let h = there in cc in absurd))
        (λ d s h.
          let rows = switched-SameRows s _ in
          returned (some d) _ refl
            (SameRows-IsSound p s _ rows h.0, chosen d refl (SameRows-IsChosen s _ d rows h.1)))

  pub select_automatic-Ends :
      (old : Option ℕ) (reason : LlmDefaultSwitchReason) (db : p.Db)
      → NoDefault p db
      → IsChecked p db
      → Ends
          (λ reply s. IsSound p s × Chosen p reply s)
          (λ _ _. ⊥)
          (select_automatic p old reason db)
  unfolding select_automatic
  select_automatic-Ends old reason db clear good =
      select_next-Ends old reason db (first_active p db) refl clear good

  current-IsChosen :
      (db : p.Db) (c : LlmProviderConfig)
      → current_default p db ≡ some c
      → IsSound p db
      → IsChosen p db c
  current-IsChosen db c e sound =
      let (marked, found) = laws.find_first_some db _ _ c e in
      let h : IsDefault p db c.id c = record { found = found; marked = marked } in
      record { default = h; active = IsSound-active p db c.id c sound h }

  pub or_select-Ends :
      (old : Option ℕ) (reason : LlmDefaultSwitchReason) (db : p.Db) (o : Option LlmProviderConfig)
      → current_default p db ≡ o
      → IsSound p db
      → Ends (λ reply s. IsSound p s × Chosen p reply s) (λ _ _. ⊥) (or_select p old reason o db)
  unfolding or_select
  or_select-Ends old reason db none e sound =
      select_automatic-Ends old reason db (none-NoDefault p laws db e) sound.rows_checked
  or_select-Ends old reason db (some c) e sound =
      returned (some c) db refl (sound, chosen c refl (current-IsChosen db c e sound))

  select_if_none-Ends :
      (db : p.Db) (o : Option LlmProviderConfig)
      → current_default p db ≡ o
      → IsSound p db
      → Ends (λ reply s. IsSound p s × Chosen p reply s) (λ _ _. ⊥) (select_if_none p o db)
  unfolding select_if_none select_locked
  select_if_none-Ends db none e sound =
      transaction-Ends p db (select_locked p)
        (or_select-Ends none initial_selection db (current_default p db) refl sound) (λ _ _ h. h)
  select_if_none-Ends db (some c) e sound =
      returned (some c) db refl (sound, chosen c refl (current-IsChosen db c e sound))

  -- Over a table that keeps its constraints, `getOrSelectDefault` never throws and keeps them. It
  -- replies with a provider that is the default and active in the database it leaves, or with null,
  -- and then no provider of the table is active.
  pub get_or_select_default_chooses :
      (db : p.Db)
      → IsSound p db
      → Ends (λ reply s. IsSound p s × Chosen p reply s) (λ _ _. ⊥) (get_or_select_default p db)
  unfolding get_or_select_default
  get_or_select_default_chooses db sound = select_if_none-Ends db (current_default p db) refl sound
