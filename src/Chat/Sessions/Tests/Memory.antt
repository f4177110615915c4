-- ===== src/Chat/Sessions/Tests/Memory.antt =====
-- Sessions and messages in memory: a session's id is the number of rows that were created before it.
use mathlib.Core.Option
use silo_core.Base.{
  ℕ, zero, suc, ◌≤◌, Bool, true, false, ◌≡◌, ◌≢◌, ◌∙◌, refl, sym, ap, Option, none, some, List, [],
  ◌∷◌, ◌==◌, ==_iff, if◌then◌else◌, ◌⊎◌, Bool-cases, inl, inr, if_true, if_false, arith,
}
use silo_core.Chat.{ChatMessage, ChatMessageCreateInput}
use silo_core.Chat.Sessions.{
  ChatSession, Platform, IsPlatform, KeepsPlace, new_session, changed_where, kept_where, bind,
}

abbrev pub Rows : Type 0
Rows = List (Option ChatSession)

abbrev at : ℕ → ChatSession → ChatSession
at i c = record c { id = i }

abbrev size : Rows → ℕ
size [] = 0
size (_ ∷ rows) = suc (size rows)

abbrev pub find_row : Rows → ℕ → Option ChatSession
find_row [] k = none
find_row (o ∷ rows) k = if size rows == k then Option.map (at k) o else find_row rows k

abbrev matching : (ChatSession → Bool) → Option ChatSession → List ChatSession
matching q none = []
matching q (some c) = if q c then c ∷ [] else []

abbrev first_or : Option ChatSession → List ChatSession → Option ChatSession
first_or o [] = o
first_or o (c ∷ _) = some c

-- Of the rows with ids below `n`, the newest for which `q` holds, and all of them.
abbrev newest : Rows → (ChatSession → Bool) → ℕ → Option ChatSession
newest rows q zero = none
newest rows q (suc n) = first_or (newest rows q n) (matching q (find_row rows n))

abbrev with_all : List ChatSession → List ChatSession → List ChatSession
with_all [] cs = cs
with_all (c ∷ _) cs = c ∷ cs

abbrev all_where : Rows → (ChatSession → Bool) → ℕ → List ChatSession
all_where rows q zero = []
all_where rows q (suc n) = with_all (matching q (find_row rows n)) (all_where rows q n)

abbrev number : List ChatSession → ℕ
number [] = 0
number (_ ∷ cs) = suc (number cs)

abbrev on_rows : (Option ChatSession → Option ChatSession) → Rows → Rows
on_rows g [] = []
on_rows g (o ∷ rows) = g (Option.map (at (size rows)) o) ∷ on_rows g rows

abbrev is_there : Option ChatSession → Bool
is_there none = false
is_there (some _) = true

abbrev messages_of : ℕ → List ChatMessage → List ChatMessage
messages_of id [] = []
messages_of id (m ∷ ms) =
    let rest = messages_of id ms in if m.session_id == id then m ∷ rest else rest

abbrev has_workspace : ℕ → Option ChatSession → Bool
has_workspace w none = false
has_workspace w (some c) = c.workspace_id == w

abbrev listed : ℕ → Option ChatSession → List ChatMessage → List ChatMessage
listed w o ms = if has_workspace w o then ms else []

abbrev count_of : List ChatMessage → ℕ
count_of [] = 0
count_of (_ ∷ ms) = suc (count_of ms)

abbrev to_message : ℕ → ChatMessageCreateInput → ChatMessage
to_message id d = record {
  id = id;
  content = d.content;
  author = d.author;
  session_id = d.session_id;
}

abbrev store :
    Rows × List ChatMessage
    → ChatMessageCreateInput
    → Bool
    → Option ChatMessage × (Rows × List ChatMessage)
store (rows, ms) d false = (none, (rows, ms))
store (rows, ms) d true =
    (some (to_message (count_of ms) d), (rows, to_message (count_of ms) d ∷ ms))

abbrev update_rows :
    (ChatSession → Bool) → (ChatSession → ChatSession) → Option ChatSession → Option ChatSession
update_rows q f = Option.map (changed_where q f)

abbrev delete_rows : (ChatSession → Bool) → Option ChatSession → Option ChatSession
delete_rows q o = bind o (kept_where q)

abbrev pub memory : Platform
memory = record {
  Db = Rows × List ChatMessage;
  find_unique = λ db k. find_row db.0 k;
  find_first = λ db q. newest db.0 q (size db.0);
  find_many = λ db q. all_where db.0 q (size db.0);
  create = λ db d. (new_session (size db.0) d, (some (new_session (size db.0) d) ∷ db.0, db.1));
  update_many =
      λ db q f. (number (all_where db.0 q (size db.0)), (on_rows (update_rows q f) db.0, db.1));
  delete_many = λ db q. (on_rows (delete_rows q) db.0, db.1);
  touch = λ db id. (is_there (find_row db.0 id), db);
  create_message = λ db d. store db d (is_there (find_row db.0 d.session_id));
  find_messages = λ db id w. listed w (find_row db.0 id) (messages_of id db.1);
  rollback = λ before _. before;
}

at_own : (i : ℕ) (c : ChatSession) → c.id ≡ i → at i c ≡ c
at_own i c e = ap (λ k. at k c) (sym e)

slot-id :
    (i : ℕ) (o : Option ChatSession) (c : ChatSession) → Option.map (at i) o ≡ some c → c.id ≡ i
slot-id i none c e = cc
slot-id i (some d) c e = let same : at i d ≡ c = cc in ap ChatSession.id (sym same)

row_id : (rows : Rows) (k : ℕ) (c : ChatSession) → find_row rows k ≡ some c → c.id ≡ k
row_id [] k c e = cc
row_id (o ∷ rows) k c e = elim (Bool-cases (size rows == k)) [
  | inl same ↦ slot-id k o c (sym (if_true _ _ same) ∙ e)
  | inr other ↦ row_id rows k c (sym (if_false _ _ other) ∙ e)
]

find_row-beyond : (rows : Rows) (k : ℕ) → size rows ≤ k → find_row rows k ≡ none
find_row-beyond [] k h = refl
find_row-beyond (o ∷ rows) k h =
    let other : (size rows == k) ≡ false = ground arith in
    if_false _ (find_row rows k) other ∙ find_row-beyond rows k (omega arith)

first_or-some :
    (q : ChatSession → Bool) (o o' : Option ChatSession) (c : ChatSession)
    → first_or o (matching q o') ≡ some c
    → ((q c ≡ true) × (o' ≡ some c)) ⊎ (o ≡ some c)
first_or-some q o none c e = inr e
first_or-some q o (some d) c e = elim (Bool-cases (q d)) [
  | inl holds ↦
      let same : some d ≡ some c = sym (ap (first_or o) (if_true _ _ holds)) ∙ e in
      let d_is_c : d ≡ c = cc in inl (ap q (sym d_is_c) ∙ holds, same)
  | inr fails ↦ inr (sym (ap (first_or o) (if_false _ _ fails)) ∙ e)
]

newest-some :
    (rows : Rows) (q : ChatSession → Bool) (n : ℕ) (c : ChatSession)
    → newest rows q n ≡ some c
    → (q c ≡ true) × (find_row rows c.id ≡ some c)
newest-some rows q zero c e = cc
newest-some rows q (suc n) c e = elim (first_or-some q (newest rows q n) (find_row rows n) c e) [
  | inl (holds, found) ↦ (holds, ap (find_row rows) (row_id rows n c found) ∙ found)
  | inr below ↦ newest-some rows q n c below
]

size-on_rows :
    (g : Option ChatSession → Option ChatSession) (rows : Rows) → size (on_rows g rows) ≡ size rows
size-on_rows g [] = refl
size-on_rows g (o ∷ rows) = ap (λ n. suc n) (size-on_rows g rows)

-- A change that leaves a row in its slot is seen through the slot.
abbrev StaysInSlot : (Option ChatSession → Option ChatSession) → Type 0
StaysInSlot g =
    (i : ℕ) (o : Option ChatSession)
    → Option.map (at i) (g (Option.map (at i) o)) ≡ g (Option.map (at i) o)

find_row-on_rows :
    (g : Option ChatSession → Option ChatSession) (rows : Rows) (k : ℕ)
    → g none ≡ none
    → StaysInSlot g
    → find_row (on_rows g rows) k ≡ g (find_row rows k)
find_row-on_rows g [] k h stays = sym h
find_row-on_rows g (o ∷ rows) k h stays =
    let at_size = ap (λ n. n == k) (size-on_rows g rows) in
    let rest = find_row-on_rows g rows k h stays in
    elim (Bool-cases (size rows == k)) [
      | inl same ↦
          if_true _ (find_row (on_rows g rows) k) (at_size ∙ same)
          ∙ ap (λ i. Option.map (at k) (g (Option.map (at i) o))) ((==_iff (size rows) k).0 same)
          ∙ stays k o
          ∙ ap g (sym (if_true _ (find_row rows k) same))
      | inr other ↦
          if_false _ (find_row (on_rows g rows) k) (at_size ∙ other)
          ∙ rest
          ∙ ap g (sym (if_false _ (find_row rows k) other))
    ]

changed-id :
    (q : ChatSession → Bool) (f : ChatSession → ChatSession) (c : ChatSession)
    → KeepsPlace f
    → ((changed_where q f c).id ≡ c.id) × ((changed_where q f c).workspace_id ≡ c.workspace_id)
changed-id q f c keeps = elim (Bool-cases (q c)) [
  | inl e ↦ (
    ap ChatSession.id (if_true (f c) c e) ∙ (keeps c).0,
    ap ChatSession.workspace_id (if_true (f c) c e) ∙ (keeps c).1,
  )
  | inr e ↦
      (ap ChatSession.id (if_false (f c) c e), ap ChatSession.workspace_id (if_false (f c) c e))
]

update_rows-StaysInSlot :
    (q : ChatSession → Bool) (f : ChatSession → ChatSession)
    → KeepsPlace f
    → StaysInSlot (update_rows q f)
update_rows-StaysInSlot q f keeps i none = refl
update_rows-StaysInSlot q f keeps i (some c) =
    ap (λ x. some x) (at_own i (changed_where q f (at i c)) (changed-id q f (at i c) keeps).0)

delete_rows-StaysInSlot : (q : ChatSession → Bool) → StaysInSlot (delete_rows q)
delete_rows-StaysInSlot q i none = refl
delete_rows-StaysInSlot q i (some c) = elim (Bool-cases (q (at i c))) [
  | inl e ↦ ap (Option.map (at i)) (if_true none _ e) ∙ sym (if_true none (some (at i c)) e)
  | inr e ↦ ap (Option.map (at i)) (if_false none _ e) ∙ sym (if_false none (some (at i c)) e)
]

has_workspace-update :
    (q : ChatSession → Bool) (f : ChatSession → ChatSession) (w : ℕ) (o : Option ChatSession)
    → KeepsPlace f
    → has_workspace w (update_rows q f o) ≡ has_workspace w o
has_workspace-update q f w none keeps = refl
has_workspace-update q f w (some c) keeps = ap (λ n. n == w) (changed-id q f c keeps).1

find_row-new :
    (rows : Rows) (c : ChatSession) (k : ℕ)
    → c.id ≡ size rows
    → find_row (some c ∷ rows) k ≡ (if c.id == k then some c else find_row rows k)
find_row-new rows c k e = elim (Bool-cases (c.id == k)) [
  | inl same ↦
      if_true _ _ (ap (λ n. n == k) (sym e) ∙ same)
      ∙ ap (λ x. some x) (at_own k c ((==_iff c.id k).0 same))
      ∙ sym (if_true _ _ same)
  | inr other ↦ if_false _ _ (ap (λ n. n == k) (sym e) ∙ other) ∙ sym (if_false _ _ other)
]

find_row-older :
    (rows : Rows) (o : Option ChatSession) (k : ℕ) (c : ChatSession)
    → find_row rows k ≡ some c
    → find_row (o ∷ rows) k ≡ find_row rows k
find_row-older rows o k c e = elim (Bool-cases (size rows == k)) [
  | inl same ↦
      let at_end = (==_iff (size rows) k).0 same in
      let beyond = find_row-beyond rows k (omega arith) in cc
  | inr other ↦ if_false _ _ other
]

store-rows :
    (db : Rows × List ChatMessage) (d : ChatMessageCreateInput) (b : Bool)
    → (store db d b).1.0 ≡ db.0
store-rows (rows, ms) d true = refl
store-rows (rows, ms) d false = refl

store-messages :
    (db : Rows × List ChatMessage) (d : ChatMessageCreateInput) (b : Bool) (k : ℕ)
    → d.session_id ≢ k
    → messages_of k (store db d b).1.1 ≡ messages_of k db.1
store-messages (rows, ms) d false k h = refl
store-messages (rows, ms) d true k h = elim (Bool-cases (d.session_id == k)) [
  | inl same ↦ absurd (h ((==_iff d.session_id k).0 same))
  | inr other ↦ if_false _ _ other
]

pub memory-IsPlatform : IsPlatform memory
memory-IsPlatform = record {
  find_first_some = λ db q c e. newest-some db.0 q (size db.0) c e;
  created_new = λ db d. find_row-beyond db.0 (size db.0) (omega arith);
  find-create = λ db d k. find_row-new db.0 (new_session (size db.0) d) k refl;
  find-update_many = λ db q f k keeps.
      find_row-on_rows (update_rows q f) db.0 k refl (update_rows-StaysInSlot q f keeps);
  find-delete_many =
      λ db q k. find_row-on_rows (delete_rows q) db.0 k refl (delete_rows-StaysInSlot q);
  find-touch = λ db id k. refl;
  find-create_message = λ db d k.
      ap (λ rows. find_row rows k) (store-rows db d (is_there (find_row db.0 d.session_id)));
  find-rollback = λ before after k. refl;
  messages-create = λ db d k w c e.
      ap (λ o. listed w o (messages_of k db.1))
        (find_row-older db.0 (some (new_session (size db.0) d)) k c e);
  messages-update_many = λ db q f k w keeps.
      ap (λ o. listed w o (messages_of k db.1))
        (find_row-on_rows (update_rows q f) db.0 k refl (update_rows-StaysInSlot q f keeps))
      ∙ ap (λ b. if b then messages_of k db.1 else [])
          (has_workspace-update q f w (find_row db.0 k) keeps);
  messages-delete_many = λ db q k w c e stays.
      ap (λ o. listed w o (messages_of k db.1))
        (find_row-on_rows (delete_rows q) db.0 k refl (delete_rows-StaysInSlot q)
          ∙ ap (delete_rows q) e
          ∙ if_false none (some c) stays
          ∙ sym e);
  messages-touch = λ db id k w. refl;
  messages-create_message = λ db d k w h.
      let b = is_there (find_row db.0 d.session_id) in
      ap (λ rows. listed w (find_row rows k) (messages_of k (store db d b).1.1)) (store-rows db d b)
      ∙ ap (listed w (find_row db.0 k)) (store-messages db d b k h);
  messages-rollback = λ before after k w. refl;
}
