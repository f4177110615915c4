-- ===== src/Llm/Providers/Defaults/Rows.antt =====
-- How the calls of the client change which providers are the default.
use mathlib.Core.Option
use silo_core.Base.{
  arith, ℕ, Bool, true, false, ◌≡◌, ◌∙◌, sym, ap, refl, ◌⊎◌, inl, inr, Option, none, some, ◌==◌,
  ==_iff, if◌then◌else◌, Bool-cases, if_true, if_false,
}
use silo_core.Llm.Providers.{
  LlmProviderConfig, Platform, IsPlatform, KeepsId, changed_where, ConfigData, new_config,
}
use silo_core.Llm.Providers.Repository.{
  is_active, is_default_row, to_no_default, to_auto_default, to_admin_default, current_default,
}
use silo_core.Llm.Providers.Defaults.{
  IsDefault, IsChecked, IsSingle, IsSound, NoDefault, SameRows, state_check,
}

map-some :
    (f : LlmProviderConfig → LlmProviderConfig) (o : Option LlmProviderConfig)
    (c' : LlmProviderConfig)
    → Option.map f o ≡ some c'
    → (c : LlmProviderConfig) × (o ≡ some c) × (c' ≡ f c)
map-some f none c' e = cc
map-some f (some c) c' e = (c, refl, cc)

cleared_if :
    (b : Bool) (c : LlmProviderConfig)
    → c.is_default ≡ b
    → (if b then to_no_default c else c).is_default ≡ false
cleared_if true c e = refl
cleared_if false c e = e

cleared_row :
    (c : LlmProviderConfig) → (changed_where is_default_row to_no_default c).is_default ≡ false
cleared_row c = cleared_if c.is_default c refl

-- Every change keeps the check, or sets it right.
module _ where
  pub unmarked-check : (c : LlmProviderConfig) → state_check (to_no_default c) ≡ true
  unfolding state_check
  unmarked-check c = refl

  pub marked-check :
      (c : LlmProviderConfig)
      → is_active c ≡ true
      → (state_check (to_auto_default c) ≡ true) × (state_check (to_admin_default c) ≡ true)
  unfolding state_check
  marked-check c e = (e, e)

  pub check-active :
      (c : LlmProviderConfig) → state_check c ≡ true → c.is_default ≡ true → is_active c ≡ true
  unfolding state_check
  check-active c h e = ground arith

  pub new-check : (id t : ℕ) (d : ConfigData) → state_check (new_config id t d) ≡ true
  unfolding state_check
  new-check id t d = refl

  cleared_check_if :
      (b : Bool) (c : LlmProviderConfig)
      → state_check c ≡ true
      → state_check (if b then to_no_default c else c) ≡ true
  cleared_check_if true c e = unmarked-check c
  cleared_check_if false c e = e

module _ (p : Platform) where
  pub SameRows-IsSound : (db db' : p.Db) → SameRows p db db' → IsSound p db → IsSound p db'
  SameRows-IsSound db db' same sound =
      let back : (k : ℕ) (c : LlmProviderConfig) → IsDefault p db' k c → IsDefault p db k c =
        λ k c h. record { found = sym (same.rows k) ∙ h.found; marked = h.marked } in
      record {
        rows_checked = record {
          checked = λ k c e. sound.rows_checked.checked k c (sym (same.rows k) ∙ e);
        };
        one_default = record {
          single = λ i j c d h g. sound.one_default.single i j c d (back i c h) (back j d g);
        };
      }

  pub NoDefault-IsSingle : (db : p.Db) → NoDefault p db → IsSingle p db
  NoDefault-IsSingle db clear = record {
    single =
        λ i j c d h g. let marked = h.marked in let unmarked = clear.unmarked i c h.found in cc;
  }

  pub IsSound-active :
      (db : p.Db) (k : ℕ) (c : LlmProviderConfig)
      → IsSound p db
      → IsDefault p db k c
      → is_active c ≡ true
  IsSound-active db k c sound h = check-active c (sound.rows_checked.checked k c h.found) h.marked

module _ (p : Platform) (laws : IsPlatform p) where
  -- A row after an update is the changed one, or one that was there.
  pub update-row :
      (db : p.Db) (k : ℕ) (f : LlmProviderConfig → LlmProviderConfig) (i : ℕ)
      (c' : LlmProviderConfig)
      → KeepsId f
      → p.find_unique (p.update db k f).1 i ≡ some c'
      → ((c : LlmProviderConfig) × (k ≡ i) × (p.find_unique db i ≡ some c) × (c' ≡ f c))
        ⊎ (¬ (k ≡ i) × (p.find_unique db i ≡ some c'))
  update-row db k f i c' keeps e =
      let e' = sym (laws.find-update db k f i keeps) ∙ e in
      elim (Bool-cases (k == i)) [
        | inl same ↦
            let (c, found, changed) = map-some f _ c' (sym (if_true _ _ same) ∙ e') in
            inl (c, (==_iff k i).0 same, found, changed)
        | inr differs ↦
            inr ((λ same. let both = (==_iff k i).1 same in cc), sym (if_false _ _ differs) ∙ e')
      ]

  pub update-IsChecked :
      (db : p.Db) (k : ℕ) (f : LlmProviderConfig → LlmProviderConfig)
      → KeepsId f
      → IsChecked p db
      → ((c : LlmProviderConfig) → p.find_unique db k ≡ some c → state_check (f c) ≡ true)
      → IsChecked p (p.update db k f).1
  update-IsChecked db k f keeps before good = record {
    checked = λ i c' e. elim (update-row db k f i c' keeps e) [
      | inl (c, same, found, changed) ↦
          ap state_check changed ∙ good c (ap (p.find_unique db) same ∙ found)
      | inr (_, found) ↦ before.checked i c' found
    ];
  }

  -- No other row becomes a default one.
  pub update-IsSingle :
      (db : p.Db) (k : ℕ) (f : LlmProviderConfig → LlmProviderConfig)
      → KeepsId f
      → IsSingle p db
      → ((c : LlmProviderConfig) → (f c).is_default ≡ true → c.is_default ≡ true)
      → IsSingle p (p.update db k f).1
  update-IsSingle db k f keeps before lowers =
      let back : (i : ℕ) (c' : LlmProviderConfig)
          → IsDefault p (p.update db k f).1 i c'
          → (c : LlmProviderConfig) × IsDefault p db i c =
        λ i c' h. elim (update-row db k f i c' keeps h.found) [
          | inl (c, same, found, changed) ↦ (
            c,
            record {
              found = found;
              marked = lowers c (ap LlmProviderConfig.is_default (sym changed) ∙ h.marked);
            },
          )
          | inr (_, found) ↦ (c', record { found = found; marked = h.marked })
        ] in
      record {
        single = λ i j c d h g.
            let (c0, h0) = back i c h in let (d0, g0) = back j d g in before.single i j c0 d0 h0 g0;
      }

  -- After one row is raised from no default, it is the only one.
  pub raised-IsSingle :
      (db : p.Db) (k : ℕ) (f : LlmProviderConfig → LlmProviderConfig)
      → KeepsId f
      → NoDefault p db
      → IsSingle p (p.update db k f).1
  raised-IsSingle db k f keeps clear =
      let at : (i : ℕ) (c' : LlmProviderConfig) → IsDefault p (p.update db k f).1 i c' → k ≡ i =
        λ i c' h. elim (update-row db k f i c' keeps h.found) [
          | inl (_, same, _, _) ↦ same
          | inr (_, found) ↦ let marked = h.marked in let unmarked = clear.unmarked i c' found in cc
        ] in
      record { single = λ i j c d h g. sym (at i c h) ∙ at j d g }

  -- The only default row is lowered.
  pub lowered-NoDefault :
      (db : p.Db) (k : ℕ) (f : LlmProviderConfig → LlmProviderConfig) (c : LlmProviderConfig)
      → KeepsId f
      → IsSingle p db
      → IsDefault p db k c
      → ((c : LlmProviderConfig) → (f c).is_default ≡ false)
      → NoDefault p (p.update db k f).1
  lowered-NoDefault db k f c keeps before h lowers = record {
    unmarked = λ i c' e. elim (update-row db k f i c' keeps e) [
      | inl (d, _, _, changed) ↦ ap LlmProviderConfig.is_default changed ∙ lowers d
      | inr (differs, found) ↦ elim (Bool-cases c'.is_default) [
        | inl marked ↦
            let same = before.single k i c c' h (record { found = found; marked = marked }) in
            elim (differs same) [ ]
        | inr unmarked ↦ unmarked
      ]
    ];
  }

  pub cleared-row :
      (db : p.Db) (k : ℕ) (c' : LlmProviderConfig)
      → p.find_unique (p.update_many db is_default_row to_no_default) k ≡ some c'
      → (c : LlmProviderConfig) × (p.find_unique db k ≡ some c)
        × (c' ≡ changed_where is_default_row to_no_default c)
  cleared-row db k c' e =
      map-some _ _ c'
        (sym (laws.find-update_many db is_default_row to_no_default k (λ _. refl)) ∙ e)

  pub cleared-NoDefault : (db : p.Db) → NoDefault p (p.update_many db is_default_row to_no_default)
  cleared-NoDefault db = record {
    unmarked = λ k c' e.
        let (c, _, changed) = cleared-row db k c' e in
        ap LlmProviderConfig.is_default changed ∙ cleared_row c;
  }

  pub cleared-IsChecked :
      (db : p.Db) → IsChecked p db → IsChecked p (p.update_many db is_default_row to_no_default)
  cleared-IsChecked db before = record {
    checked = λ k c' e.
        let (c, found, changed) = cleared-row db k c' e in
        ap state_check changed ∙ cleared_check_if c.is_default c (before.checked k c found);
  }

  pub none-NoDefault : (db : p.Db) → current_default p db ≡ none → NoDefault p db
  none-NoDefault db e = record { unmarked = λ k c found. laws.find_first_none db _ _ k c e found }

  -- The updated row, by the id that it has.
  pub update-found :
      (db : p.Db) (k : ℕ) (f : LlmProviderConfig → LlmProviderConfig) (c : LlmProviderConfig)
      → KeepsId f
      → p.find_unique db k ≡ some c
      → p.find_unique (p.update db k f).1 (f c).id ≡ some (f c)
  update-found db k f c keeps found =
      let at_id = keeps c ∙ laws.row_id db k c found in
      ap (p.find_unique (p.update db k f).1) at_id
      ∙ laws.find-update db k f k keeps
      ∙ if_true _ _ ((==_iff k k).1 refl)
      ∙ ap (Option.map f) found

  -- Another row stays.
  pub update-other :
      (db : p.Db) (k : ℕ) (f : LlmProviderConfig → LlmProviderConfig) (i : ℕ)
      → KeepsId f
      → ¬ (k ≡ i)
      → p.find_unique (p.update db k f).1 i ≡ p.find_unique db i
  update-other db k f i keeps differs = elim (Bool-cases (k == i)) [
    | inl same ↦ elim (differs ((==_iff k i).0 same)) [ ]
    | inr other ↦ laws.find-update db k f i keeps ∙ if_false _ _ other
  ]
