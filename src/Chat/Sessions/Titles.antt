-- ===== src/Chat/Sessions/Titles.antt =====
-- The title that is generated for a session: it takes the place of no other title.
use mathlib.Core.Option
use silo_core.Base.{
  both_true, and_false, ℕ, String, false, ◌≡◌, refl, ap, ◌∙◌, some, List, [], ◌∷◌, ==_iff, if_true,
  if_false,
}
use silo_core.Chat.Sessions.{
  ChatSession, placeholder, generated, Platform, IsPlatform, is_placeholder, is_at, is_untitled_at,
  changed_where, to_titled, apply_generated_title_in_workspace,
}

-- A session, its workspace and the title generated for it.
abbrev pub GeneratedTitle : Type 0
GeneratedTitle = ℕ × (ℕ × String)

module _ (p : Platform) where
  unfoldable pub apply_titles : List GeneratedTitle → p.Db → p.Db
  unfolding apply_generated_title_in_workspace
  apply_titles [] db = db
  apply_titles ((id, (w, title)) ∷ rest) db =
      apply_titles rest (apply_generated_title_in_workspace p id w title db).1

module _ (p : Platform) (laws : IsPlatform p) where
  titled :
      (db : p.Db) (id w k : ℕ) (title : String) (c : ChatSession)
      → p.find_unique db k ≡ some c
      → p.find_unique (apply_generated_title_in_workspace p id w title db).1 k
        ≡ some (changed_where (is_untitled_at p id w) (to_titled title generated) c)
  unfolding apply_generated_title_in_workspace
  titled db id w k title c e =
      laws.find-update_many db (is_untitled_at p id w) (to_titled title generated) k
        (λ _. (refl, refl))
      ∙ ap (Option.map (changed_where (is_untitled_at p id w) (to_titled title generated))) e

  title_stays :
      (titles : List GeneratedTitle) (db : p.Db) (k : ℕ) (c : ChatSession)
      → p.find_unique db k ≡ some c
      → is_placeholder c.title_source ≡ false
      → p.find_unique (apply_titles p titles db) k ≡ some c
  unfolding apply_titles
  title_stays [] db k c e has_title = e
  title_stays ((id, (w, title)) ∷ rest) db k c e has_title =
      title_stays rest (apply_generated_title_in_workspace p id w title db).1 k c
        (titled db id w k title c e
          ∙ ap (λ x. some x)
              (if_false (to_titled title generated c) c (and_false (is_at id w c) _ has_title)))
        has_title

  -- The first title that is generated for a session without a title is the one that it keeps,
  -- whichever titles are generated later, for it or for others.
  pub first_title_stays :
      (titles : List GeneratedTitle) (db : p.Db) (c : ChatSession) (title : String)
      → p.find_unique db c.id ≡ some c
      → c.title_source ≡ placeholder
      → p.find_unique (apply_titles p ((c.id, (c.workspace_id, title)) ∷ titles) db) c.id
        ≡ some (to_titled title generated c)
  unfolding apply_titles
  first_title_stays titles db c title e untitled =
      title_stays titles (apply_generated_title_in_workspace p c.id c.workspace_id title db).1 c.id
        (to_titled title generated c)
        (titled db c.id c.workspace_id c.id title c e
          ∙ ap (λ x. some x)
              (if_true (to_titled title generated c) c (
                both_true _ _
                  (both_true _ _ ((==_iff c.id c.id).1 refl)
                    ((==_iff c.workspace_id c.workspace_id).1 refl))
                  (ap is_placeholder untitled))))
        refl
