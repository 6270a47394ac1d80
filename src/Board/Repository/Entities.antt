-- ===== src/Board/Repository/Entities.antt =====
-- Epics and features.
use cloglog.Base.{
  ℕ, ◌+◌, ◌%◌, String, Bool, not, ◌&&◌, Option, none, some, List, [], ◌∷◌, ◌++◌, ◌==◌, str_eq, find,
  update_where, select, count, length, get_or, sort_by,
}
use cloglog.Models.{World, Epic, Feature}
use cloglog.Action.{Action, pure, modify, gets, uuid4, ◌>>=◌, ◌>>◌, unless_none}

abbrev pub is_epic : ℕ → Epic → Bool
is_epic k e = e.id == k

abbrev pub is_feature : ℕ → Feature → Bool
is_feature k f = f.id == k

unfoldable pub get_epic : World → ℕ → Option Epic
get_epic w k = find (is_epic k) w.epics

unfoldable pub get_feature : World → ℕ → Option Feature
get_feature w k = find (is_feature k) w.features

unfoldable pub create_epic : ℕ → String → String → String → String → ℕ → String → ℕ → Action Epic
create_epic project_id title description bounded_context context_description position color number =
    do
      id ← uuid4
      now ← gets (λ w. w.now)
      let epic : Epic = record {
        id = id;
        project_id = project_id;
        title = title;
        description = description;
        bounded_context = bounded_context;
        context_description = context_description;
        status = "planned";
        position = position;
        color = color;
        number = number;
        created_at = now;
      }
      modify (λ w. record w { epics = w.epics ++ epic ∷ [] })
      pure epic

unfoldable pub create_feature : ℕ → String → String → ℕ → ℕ → Action Feature
create_feature epic_id title description position number = do
  id ← uuid4
  now ← gets (λ w. w.now)
  let feature : Feature = record {
    id = id;
    epic_id = epic_id;
    title = title;
    description = description;
    status = "planned";
    position = position;
    number = number;
    created_at = now;
  }
  modify (λ w. record w { features = w.features ++ feature ∷ [] })
  pure feature

unfoldable pub list_epics : World → ℕ → List Epic
list_epics w k = sort_by (λ e. e.position) (select (λ e. e.project_id == k) w.epics)

unfoldable pub list_features : World → ℕ → List Feature
list_features w k = sort_by (λ f. f.position) (select (λ f. f.epic_id == k) w.features)

-- The keyword arguments that are not `None` are the function that sets the columns they name.
unfoldable pub update_epic : ℕ → (Epic → Epic) → Action (Option Epic)
update_epic k fields = do
  epic ← gets (λ w. get_epic w k)
  unless_none epic (pure none) λ e. do
    modify (λ w. record w { epics = update_where (is_epic k) fields w.epics })
    pure (some (fields e))

unfoldable pub update_feature : ℕ → (Feature → Feature) → Action (Option Feature)
update_feature k fields = do
  feature ← gets (λ w. get_feature w k)
  unless_none feature (pure none) λ f. do
    modify (λ w. record w { features = update_where (is_feature k) fields w.features })
    pure (some (fields f))

-- `palette[i % len(palette)]`; the palettes of the program are not empty.
unfoldable pub color_at : List String → ℕ → String
color_at palette i = get_or palette (i % length palette) ""

-- The loop of `backfill_epic_colors`, from the palette's index `i` on.
unfoldable pub paint_epics : List String → ℕ → List Epic → List Epic → List Epic
paint_epics palette i [] rows = rows
paint_epics palette i (epic ∷ epics) rows =
    paint_epics palette (i + 1) epics
      (update_where (is_epic epic.id) (λ e. record e { color = color_at palette i }) rows)

unfoldable pub backfill_epic_colors : ℕ → List String → Action ℕ
backfill_epic_colors k palette = do
  rows ← gets (λ w. w.epics)
  let epics : List Epic =
      sort_by (λ e. e.position) (select (λ e. e.project_id == k && str_eq e.color "") rows)
  let offset : ℕ = count (λ e. e.project_id == k && not (str_eq e.color "")) rows
  modify (λ w. record w { epics = paint_epics palette offset epics w.epics })
  pure (length epics)

unfoldable pub find_epic_by_title : World → ℕ → String → Option Epic
find_epic_by_title w k title = find (λ e. e.project_id == k && str_eq e.title title) w.epics

unfoldable pub find_feature_by_title : World → ℕ → String → Option Feature
find_feature_by_title w k title = find (λ f. f.epic_id == k && str_eq f.title title) w.features
