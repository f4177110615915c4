-- ===== src/Llm/Providers/Tests/Memory.antt =====
-- A table of providers with room for two rows, whose ids are 0 and 1.
use mathlib.Core.Option
use silo_core.Base.{
  ℕ, zero, suc, Bool, true, false, ◌≡◌, ◌∙◌, sym, ap, refl, Option, none, some, List, [], ◌∷◌, ◌++◌,
  ◌==◌, if◌then◌else◌, ◌⊎◌, Bool-cases, inl, inr, if_true, if_false, arith,
}
use silo_core.Llm.Providers.{
  LlmProviderConfig, Platform, IsPlatform, ConfigData, KeepsId, new_config, changed_where,
}

abbrev at : ℕ → LlmProviderConfig → LlmProviderConfig
at i c = record c { id = i }

abbrev Rows : Type 0
Rows = Option LlmProviderConfig × Option LlmProviderConfig

abbrev pub find_unique : Rows → ℕ → Option LlmProviderConfig
find_unique rows zero = Option.map (at 0) rows.0
find_unique rows (suc zero) = Option.map (at 1) rows.1
find_unique rows (suc (suc k)) = none

abbrev matching : (LlmProviderConfig → Bool) → Option LlmProviderConfig → Option LlmProviderConfig
matching q none = none
matching q (some c) = if q c then some c else none

abbrev or_next : Option LlmProviderConfig → Option LlmProviderConfig → Option LlmProviderConfig
or_next none o = o
or_next (some c) o = some c

abbrev find_first : Rows → (LlmProviderConfig → Bool) → Option LlmProviderConfig
find_first rows q = or_next (matching q (find_unique rows 0)) (matching q (find_unique rows 1))

abbrev listed : Option LlmProviderConfig → List LlmProviderConfig
listed none = []
listed (some c) = c ∷ []

abbrev find_many : Rows → (LlmProviderConfig → Bool) → List LlmProviderConfig
find_many rows q =
    listed (matching q (find_unique rows 0)) ++ listed (matching q (find_unique rows 1))

abbrev number : List LlmProviderConfig → ℕ
number [] = 0
number (_ ∷ cs) = suc (number cs)

-- A full table loses its second row.
abbrev create : Rows → ConfigData → LlmProviderConfig × Rows
create (none, second) d = (new_config 0 0 d, (some (new_config 0 0 d), second))
create (some c, second) d = (new_config 1 0 d, (some c, some (new_config 1 0 d)))

abbrev change : Rows → ℕ → (LlmProviderConfig → LlmProviderConfig) → Rows
change rows zero f = (Option.map f (find_unique rows 0), rows.1)
change rows (suc zero) f = (rows.0, Option.map f (find_unique rows 1))
change rows (suc (suc k)) f = rows

abbrev pub memory : Platform
memory = record {
  Db = Rows;
  find_unique = find_unique;
  find_first = λ rows q _. find_first rows q;
  find_many = λ rows q _. find_many rows q;
  count = λ rows q. number (find_many rows q);
  create = create;
  update = λ rows k f. (Option.map f (find_unique rows k), change rows k f);
  update_many = λ rows q f. (
    Option.map (changed_where q f) (find_unique rows 0),
    Option.map (changed_where q f) (find_unique rows 1),
  );
  create_switch = λ rows _. rows;
  rollback = λ before _. before;
}

at_own : (i : ℕ) (c : LlmProviderConfig) → c.id ≡ i → at i c ≡ c
at_own i c e = ap (λ k. at k c) (sym e)

-- A change that keeps the id is seen through the slot that numbers its row.
slot-change :
    (i : ℕ) (f : LlmProviderConfig → LlmProviderConfig) (o : Option LlmProviderConfig)
    → ((c : LlmProviderConfig) → (f c).id ≡ c.id)
    → Option.map (at i) (Option.map f (Option.map (at i) o)) ≡ Option.map f (Option.map (at i) o)
slot-change i f none keeps = refl
slot-change i f (some c) keeps = ap (λ x. some x) (at_own i (f (at i c)) (keeps (at i c)))

changed_where-id :
    (q : LlmProviderConfig → Bool) (f : LlmProviderConfig → LlmProviderConfig)
    (c : LlmProviderConfig)
    → KeepsId f
    → (changed_where q f c).id ≡ c.id
changed_where-id q f c keeps = elim (Bool-cases (q c)) [
  | inl e ↦ ap LlmProviderConfig.id (if_true (f c) c e) ∙ keeps c
  | inr e ↦ ap LlmProviderConfig.id (if_false (f c) c e)
]

slot-id :
    (i : ℕ) (o : Option LlmProviderConfig) (c : LlmProviderConfig)
    → Option.map (at i) o ≡ some c
    → c.id ≡ i
slot-id i none c e = cc
slot-id i (some d) c e = let same : at i d ≡ c = cc in ap LlmProviderConfig.id (sym same)

row_id : (rows : Rows) (k : ℕ) (c : LlmProviderConfig) → find_unique rows k ≡ some c → c.id ≡ k
row_id rows zero c e = slot-id 0 rows.0 c e
row_id rows (suc zero) c e = slot-id 1 rows.1 c e
row_id rows (suc (suc k)) c e = cc

same_if : (b : Bool) (o : Option LlmProviderConfig) → (if b then o else o) ≡ o
same_if true o = refl
same_if false o = refl

beyond : (k : ℕ) → ((0 == suc (suc k)) ≡ false) × ((1 == suc (suc k)) ≡ false)
beyond k = (ground arith, ground arith)

beyond_both : (k : ℕ) → ((suc (suc k) == 0) ≡ false) × ((suc (suc k) == 1) ≡ false)
beyond_both k = (ground arith, ground arith)

find-change :
    (rows : Rows) (k : ℕ) (f : LlmProviderConfig → LlmProviderConfig) (i : ℕ)
    → KeepsId f
    → find_unique (change rows k f) i
      ≡ (if k == i then Option.map f (find_unique rows i) else find_unique rows i)
find-change rows zero f zero keeps = slot-change 0 f rows.0 keeps
find-change rows zero f (suc zero) keeps = refl
find-change rows zero f (suc (suc i)) keeps = sym (same_if _ none)
find-change rows (suc zero) f zero keeps = refl
find-change rows (suc zero) f (suc zero) keeps = slot-change 1 f rows.1 keeps
find-change rows (suc zero) f (suc (suc i)) keeps = sym (same_if _ none)
find-change rows (suc (suc k)) f zero keeps = sym (if_false _ _ (beyond_both k).0)
find-change rows (suc (suc k)) f (suc zero) keeps = sym (if_false _ _ (beyond_both k).1)
find-change rows (suc (suc k)) f (suc (suc i)) keeps = sym (same_if _ none)

find-change_all :
    (rows : Rows) (q : LlmProviderConfig → Bool) (f : LlmProviderConfig → LlmProviderConfig) (i : ℕ)
    → KeepsId f
    → find_unique (memory.update_many rows q f) i
      ≡ Option.map (changed_where q f) (find_unique rows i)
find-change_all rows q f zero keeps =
    slot-change 0 (changed_where q f) rows.0 (λ c. changed_where-id q f c keeps)
find-change_all rows q f (suc zero) keeps =
    slot-change 1 (changed_where q f) rows.1 (λ c. changed_where-id q f c keeps)
find-change_all rows q f (suc (suc i)) keeps = refl

find-create :
    (rows : Rows) (d : ConfigData) (k : ℕ)
    → find_unique (create rows d).1 k
      ≡ (if (create rows d).0.id == k then some (create rows d).0 else find_unique rows k)
find-create (none, second) d zero = refl
find-create (none, second) d (suc zero) = refl
find-create (none, second) d (suc (suc k)) = sym (if_false _ _ (beyond k).0)
find-create (some c, second) d zero = refl
find-create (some c, second) d (suc zero) = refl
find-create (some c, second) d (suc (suc k)) = sym (if_false _ _ (beyond k).1)

create_row :
    (rows : Rows) (d : ConfigData)
    → (t : ℕ) × ((create rows d).0 ≡ new_config (create rows d).0.id t d)
create_row (none, second) d = (0, refl)
create_row (some c, second) d = (0, refl)

matching-some :
    (q : LlmProviderConfig → Bool) (o : Option LlmProviderConfig) (c : LlmProviderConfig)
    → matching q o ≡ some c
    → (q c ≡ true) × (o ≡ some c)
matching-some q none c e = cc
matching-some q (some d) c e = elim (Bool-cases (q d)) [
  | inl holds ↦ let same : d ≡ c = cc in (ap q (sym same) ∙ holds, ap (λ x. some x) same)
  | inr fails ↦ cc
]

matching-none :
    (q : LlmProviderConfig → Bool) (o : Option LlmProviderConfig) (c : LlmProviderConfig)
    → matching q o ≡ none
    → o ≡ some c
    → q c ≡ false
matching-none q o c e found = elim (Bool-cases (q c)) [
  | inl holds ↦ let gone = sym (ap (matching q) found ∙ if_true _ _ holds) ∙ e in cc
  | inr fails ↦ fails
]

-- A row that `find_first` replies is in its slot; one that is in a slot is found if it matches.
first-some :
    (a b : Option LlmProviderConfig) (c : LlmProviderConfig)
    → or_next a b ≡ some c
    → (a ≡ some c) ⊎ (b ≡ some c)
first-some none b c e = inr e
first-some (some d) b c e = inl e

first-none : (a b : Option LlmProviderConfig) → or_next a b ≡ none → (a ≡ none) × (b ≡ none)
first-none none b e = (refl, e)
first-none (some c) b e = cc

find_first-some :
    (rows : Rows) (q : LlmProviderConfig → Bool) (c : LlmProviderConfig)
    → find_first rows q ≡ some c
    → (q c ≡ true) × (find_unique rows c.id ≡ some c)
find_first-some rows q c e = elim (first-some _ _ c e) [
  | inl here ↦
      let (holds, found) = matching-some q (find_unique rows 0) c here in
      (holds, ap (find_unique rows) (slot-id 0 rows.0 c found) ∙ found)
  | inr here ↦
      let (holds, found) = matching-some q (find_unique rows 1) c here in
      (holds, ap (find_unique rows) (slot-id 1 rows.1 c found) ∙ found)
]

find_first-none :
    (rows : Rows) (q : LlmProviderConfig → Bool) (k : ℕ) (c : LlmProviderConfig)
    → find_first rows q ≡ none
    → find_unique rows k ≡ some c
    → q c ≡ false
find_first-none rows q zero c e found =
    matching-none q (find_unique rows 0) c (first-none _ _ e).0 found
find_first-none rows q (suc zero) c e found =
    matching-none q (find_unique rows 1) c (first-none _ _ e).1 found
find_first-none rows q (suc (suc k)) c e found = cc

pub memory-IsPlatform : IsPlatform memory
memory-IsPlatform = record {
  row_id = row_id;
  find_first_some = λ rows q _ c e. find_first-some rows q c e;
  find_first_none = λ rows q _ k c e found. find_first-none rows q k c e found;
  create_row = create_row;
  find-create = find-create;
  update_reply = λ _ _ _ _. refl;
  find-update = find-change;
  find-update_many = find-change_all;
  find-create_switch = λ _ _ _. refl;
  find-rollback = λ _ _ _. refl;
}
