-- ===== src/Llm/Providers/Defaults/Switching.antt =====
-- `setDefault` and `promoteDefault`: the default passes from one provider to another.
use mathlib.Core.Option
use silo_core.Base.{
  ℕ, Bool, true, false, ◌||◌, ◌≡◌, ◌≢◌, ◌∙◌, sym, ap, refl, inl, inr, Option, none, some, ◌==◌,
  ==_iff, arith, ◌⊎◌, if◌then◌else◌,
}
use silo_core.Exec.Ends.{Ends, returned, Ends-after, Ends-either}
use silo_core.Llm.Providers.{
  LlmProviderConfig, Platform, IsPlatform, LlmDefaultSource, admin, auto, changed_where,
}
use silo_core.Llm.Providers.Repository.{
  is_active, is_no_target, is_other, is_default_row, to_no_default, to_auto_default,
  to_admin_default, current_default, record_switch, update_config, make_default, set_default_locked,
  set_default, switch_default, promote_locked, promote_default,
}
use silo_core.Llm.Providers.Defaults.{IsDefault, IsSound, IsChecked, NoDefault}
use silo_core.Llm.Providers.Defaults.Rows.{
  SameRows-IsSound, marked-check, unmarked-check, update-IsChecked, lowered-NoDefault,
  cleared-NoDefault, cleared-IsChecked, cleared-row, none-NoDefault, update-other,
}
use silo_core.Llm.Providers.Defaults.Selection.{
  IsChosen, transaction-Ends, update_config-Ends, switched-SameRows, SameRows-IsChosen,
  update-IsChosen, raised-IsSound, some-injective,
}

-- The provider with the id is the default in the database, chosen by the source.
pub record Holds (p : Platform) (db : p.Db) (id : ℕ) (source : LlmDefaultSource)
    (c : LlmProviderConfig) : Type 0 where
  pub chosen : IsChosen p db c
  pub at_id : c.id ≡ id
  pub by_source : c.default_source ≡ some source

pub data SetOutcome (p : Platform) (db : p.Db) (id : ℕ) (reply : Option LlmProviderConfig)
    (s : p.Db) : Type 0 where
  kept :
      ((c : LlmProviderConfig) → p.find_unique db id ≡ some c → is_active c ≡ false)
      → reply ≡ none
      → s ≡ db
      → SetOutcome p db id reply s
  set :
      (c d : LlmProviderConfig)
      → p.find_unique db id ≡ some c
      → is_active c ≡ true
      → reply ≡ some d
      → Holds p s id admin d
      → SetOutcome p db id reply s

-- What lets `promoteDefault` pass the default from one provider to the other.
pub record CanPromote (p : Platform) (db : p.Db) (from_id to_id : ℕ) (old new : LlmProviderConfig)
    : Type 0 where
  pub is_default : IsDefault p db from_id old
  pub target : p.find_unique db to_id ≡ some new
  pub active : is_active new ≡ true
  pub differs : from_id ≢ to_id

pub data PromoteOutcome (p : Platform) (db : p.Db) (from_id to_id : ℕ) (reply : Bool) (s : p.Db)
    : Type 0 where
  kept :
      ((old new : LlmProviderConfig) → ¬ CanPromote p db from_id to_id old new)
      → reply ≡ false
      → s ≡ db
      → PromoteOutcome p db from_id to_id reply s
  promoted :
      (old new d : LlmProviderConfig)
      → CanPromote p db from_id to_id old new
      → reply ≡ true
      → Holds p s to_id auto d
      → PromoteOutcome p db from_id to_id reply s

target-active :
    (o : Option LlmProviderConfig)
    → is_no_target o ≡ false
    → (c : LlmProviderConfig) × (o ≡ some c) × (is_active c ≡ true)
target-active none e = cc
target-active (some c) e = (c, refl, ground arith)

no-target :
    (o : Option LlmProviderConfig) (c : LlmProviderConfig)
    → is_no_target o ≡ true
    → o ≡ some c
    → is_active c ≡ false
no-target none c e h = cc
no-target (some d) c e h =
    let off : is_active d ≡ false = ground arith in ap is_active (some-injective c d (sym h)) ∙ off

cleared-active :
    (b : Bool) (c : LlmProviderConfig) → is_active (if b then to_no_default c else c) ≡ is_active c
cleared-active true c = refl
cleared-active false c = refl

or_true-cases : (b c : Bool) → (b || c) ≡ true → (b ≡ true) ⊎ (c ≡ true)
or_true-cases true c e = inl refl
or_true-cases false c e = inr e

or_false-both : (b c : Bool) → (b || c) ≡ false → (b ≡ false) × (c ≡ false)
or_false-both true c e = cc
or_false-both false c e = (refl, e)

module _ (p : Platform) (laws : IsPlatform p) where
  -- The rows of a database without its default provider are as active as before.
  cleared-find :
      (db : p.Db) (k : ℕ) (c d : LlmProviderConfig)
      → p.find_unique db k ≡ some c
      → p.find_unique (p.update_many db is_default_row to_no_default) k ≡ some d
      → is_active d ≡ is_active c
  cleared-find db k c d found later =
      let (c', found', changed) = cleared-row p laws db k d later in
      ap is_active changed
      ∙ cleared-active c'.is_default c'
      ∙ ap is_active (some-injective c' c (sym found' ∙ found))

  cleared-none :
      (db : p.Db) (k : ℕ) (c : LlmProviderConfig)
      → p.find_unique db k ≡ some c
      → p.find_unique (p.update_many db is_default_row to_no_default) k ≢ none
  cleared-none db k c found gone =
      let e =
        sym gone
        ∙ laws.find-update_many db is_default_row to_no_default k (λ _. refl)
        ∙ ap (Option.map (changed_where is_default_row to_no_default)) found in
      cc

  make_default-Ends :
      (db : p.Db) (id : ℕ) (c : LlmProviderConfig)
      → IsSound p db
      → p.find_unique db id ≡ some c
      → is_active c ≡ true
      → Ends
          (λ reply s. IsSound p s × SetOutcome p db id reply s)
          (λ _ _. ⊥)
          (make_default p id (p.update_many db is_default_row to_no_default))
  unfolding make_default
  make_default-Ends db id c sound found active =
      let db' = p.update_many db is_default_row to_no_default in
      let same : (d : LlmProviderConfig) → p.find_unique db' id ≡ some d → is_active d ≡ true =
        λ d later. cleared-find db id c d found later ∙ active in
      Ends-after {R = λ d s. IsSound p s × Holds p s id admin d} _ _
        (update_config-Ends p laws db' id to_admin_default (λ _. refl)
          (λ d later. (
            raised-IsSound p laws db' id to_admin_default (λ _. refl) (cleared-NoDefault p laws db)
                (cleared-IsChecked p laws db sound.rows_checked)
                (λ d' later'. (marked-check d' (same d' later')).1),
            record {
              chosen =
                  update-IsChosen p laws db' id to_admin_default d (λ _. refl) later refl
                    (same d later);
              at_id = laws.row_id db' id d later;
              by_source = refl;
            },
          ))
          (λ gone _. cleared-none db id c found gone))
        (λ d s h. returned (some d) s refl (h.0, set c d found active refl h.1))

  -- Over a table that keeps its constraints, `setDefault` never throws and keeps them. It replies
  -- with null and changes nothing if no active provider has the id; else it replies with the
  -- provider of that id, which is the default by the choice of an administrator.
  pub set_default_outcome :
      (db : p.Db) (id : ℕ)
      → IsSound p db
      → Ends (λ reply s. IsSound p s × SetOutcome p db id reply s) (λ _ _. ⊥) (set_default p id db)
  unfolding set_default set_default_locked
  set_default_outcome db id sound =
      transaction-Ends p db (set_default_locked p id)
        (Ends-either (is_no_target (p.find_unique db id)) _ _
          (λ bad.
            returned none db refl
              (sound, kept (λ c found. no-target (p.find_unique db id) c bad found) refl refl))
          (λ good.
            let (c, found, active) = target-active (p.find_unique db id) good in
            make_default-Ends db id c sound found active))
        (λ _ _ h. h)

  raise-Ends :
      (db : p.Db) (id : ℕ) (c : LlmProviderConfig)
      → NoDefault p db
      → IsChecked p db
      → p.find_unique db id ≡ some c
      → is_active c ≡ true
      → Ends
          (λ d s. IsSound p s × Holds p s id auto d)
          (λ _ _. ⊥)
          (update_config p id to_auto_default db)
  raise-Ends db id c clear good found active =
      let same : (d : LlmProviderConfig) → p.find_unique db id ≡ some d → is_active d ≡ true =
        λ d found'. ap is_active (some-injective d c (sym found' ∙ found)) ∙ active in
      update_config-Ends p laws db id to_auto_default (λ _. refl)
        (λ d later. (
          raised-IsSound p laws db id to_auto_default (λ _. refl) clear good
              (λ d' later'. (marked-check d' (same d' later')).0),
          record {
            chosen =
                update-IsChosen p laws db id to_auto_default d (λ _. refl) later refl
                  (same d later);
            at_id = laws.row_id db id d later;
            by_source = refl;
          },
        ))
        (λ gone _. let h = found in cc)

  switch_default-Ends :
      (db : p.Db) (from_id to_id : ℕ) (old new : LlmProviderConfig)
      → IsSound p db
      → CanPromote p db from_id to_id old new
      → Ends
          (λ reply s. IsSound p s × PromoteOutcome p db from_id to_id reply s)
          (λ _ _. ⊥)
          (switch_default p from_id to_id db)
  unfolding switch_default record_switch
  switch_default-Ends db from_id to_id old new sound can =
      let there = can.is_default.found in
      Ends-after {R = λ _ s. NoDefault p s × IsChecked p s × (p.find_unique s to_id ≡ some new)} _ _
        (update_config-Ends p laws db from_id to_no_default (λ _. refl)
          (λ _ _. (
            lowered-NoDefault p laws db from_id to_no_default old (λ _. refl) sound.one_default
                can.is_default (λ _. refl),
            update-IsChecked p laws db from_id to_no_default (λ _. refl) sound.rows_checked
                (λ c _. unmarked-check c),
            update-other p laws db from_id to_no_default to_id (λ _. refl) can.differs ∙ can.target,
          ))
          (λ gone _. let h = there in cc))
        (λ _ t h.
          Ends-after {R = λ d s. IsSound p s × Holds p s to_id auto d} _ _
            (raise-Ends t to_id new h.0 h.1 h.2 can.active)
            (λ d s g.
              let rows = switched-SameRows p laws s _ in
              returned true _ refl (
                SameRows-IsSound p s _ rows g.0,
                promoted old new d can refl (record {
                  chosen = SameRows-IsChosen p laws s _ d rows g.1.chosen;
                  at_id = g.1.at_id;
                  by_source = g.1.by_source;
                }),
              )))

  other-IsDefault :
      (db : p.Db) (from_id : ℕ) (o : Option LlmProviderConfig) (c : LlmProviderConfig)
      → IsSound p db
      → current_default p db ≡ o
      → is_other o from_id ≡ true
      → ¬ IsDefault p db from_id c
  other-IsDefault db from_id none c sound e other h =
      let marked = h.marked in
      let unmarked = (none-NoDefault p laws db e).unmarked from_id c h.found in cc
  other-IsDefault db from_id (some d) c sound e other h =
      let (marked, found) = laws.find_first_some db _ _ d e in
      let same =
        sound.one_default.single d.id from_id d c (record { found = found; marked = marked }) h in
      let equal = (==_iff d.id from_id).1 same in ground arith

  same-IsDefault :
      (db : p.Db) (from_id : ℕ) (o : Option LlmProviderConfig)
      → current_default p db ≡ o
      → is_other o from_id ≡ false
      → (c : LlmProviderConfig) × IsDefault p db from_id c
  same-IsDefault db from_id none e other = cc
  same-IsDefault db from_id (some c) e other =
      let (marked, found) = laws.find_first_some db _ _ c e in
      let same : c.id ≡ from_id = ground arith in
      (c, record { found = ap (p.find_unique db) (sym same) ∙ found; marked = marked })

  blocked :
      (db : p.Db) (from_id to_id : ℕ) (old new : LlmProviderConfig)
      → IsSound p db
      → (is_other (current_default p db) from_id
          || (is_no_target (p.find_unique db to_id) || from_id == to_id))
        ≡ true
      → ¬ CanPromote p db from_id to_id old new
  blocked db from_id to_id old new sound e can = elim (or_true-cases _ _ e) [
    | inl other ↦
        other-IsDefault db from_id (current_default p db) old sound refl other can.is_default
    | inr e' ↦ elim (or_true-cases _ _ e') [
      | inl bad ↦
          let off = no-target (p.find_unique db to_id) new bad can.target in
          let on = can.active in cc
      | inr same ↦ can.differs ((==_iff from_id to_id).0 same)
    ]
  ]

  open_way :
      (db : p.Db) (from_id to_id : ℕ)
      → (is_other (current_default p db) from_id
          || (is_no_target (p.find_unique db to_id) || from_id == to_id))
        ≡ false
      → (old new : LlmProviderConfig) × CanPromote p db from_id to_id old new
  open_way db from_id to_id e =
      let (mine, e') = or_false-both _ _ e in
      let (good, differs) = or_false-both _ _ e' in
      let (old, h) = same-IsDefault db from_id (current_default p db) refl mine in
      let (new, found, active) = target-active (p.find_unique db to_id) good in
      (
        old,
        new,
        record {
          is_default = h;
          target = found;
          active = active;
          differs = λ same. let equal = (==_iff from_id to_id).1 same in cc;
        },
      )

  -- Over a table that keeps its constraints, `promoteDefault` never throws and keeps them. It
  -- replies with true exactly if the first provider is the default, the second is active and they
  -- differ, and then the second is the default, by an automatic choice; else it changes nothing.
  pub promote_default_outcome :
      (db : p.Db) (from_id to_id : ℕ)
      → IsSound p db
      → Ends
          (λ reply s. IsSound p s × PromoteOutcome p db from_id to_id reply s)
          (λ _ _. ⊥)
          (promote_default p from_id to_id db)
  unfolding promote_default promote_locked
  promote_default_outcome db from_id to_id sound =
      transaction-Ends p db (promote_locked p from_id to_id)
        (Ends-either
          (is_other (current_default p db) from_id
            || (is_no_target (p.find_unique db to_id) || from_id == to_id))
          _ _
          (λ bad.
            returned false db refl
              (sound, kept (λ old new. blocked db from_id to_id old new sound bad) refl refl))
          (λ good.
            let (old, new, can) = open_way db from_id to_id good in
            switch_default-Ends db from_id to_id old new sound can))
        (λ _ _ h. h)
