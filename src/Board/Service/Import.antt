-- ===== src/Board/Service/Import.antt =====
-- The bulk import of a plan (`import_plan`), and the document of a review.
use cloglog.Base.{ℕ, ◌+◌, String, Option, none, List, [], ◌∷◌, ◌++◌}
use cloglog.Models.{Document}
use cloglog.Action.{Action, pure, modify, gets, uuid4, ◌>>=◌, ◌>>◌}
use cloglog.Board.Repository.{
  count_epics, next_epic_number, next_feature_number, next_task_number, create_epic, create_feature,
  color_at,
}
use cloglog.Board.Service.Rollup.{create_task}
use cloglog.Board.Service.CloseOff.{epic_color_palette}

-- ImportTask, ImportFeature, ImportEpic (src/board/schemas.py)
pub record ImportTask : Type 0 where
  pub title : String
  pub description : String
  pub priority : String

pub record ImportFeature : Type 0 where
  pub title : String
  pub description : String
  pub tasks : List ImportTask

pub record ImportEpic : Type 0 where
  pub title : String
  pub description : String
  pub bounded_context : String
  pub features : List ImportFeature

-- What `import_plan` counts while it runs: the next numbers, and how many rows it has made.
pub record Tally : Type 0 where
  pub next_epic_num : ℕ
  pub next_feat_num : ℕ
  pub next_task_num : ℕ
  pub epics_created : ℕ
  pub features_created : ℕ
  pub tasks_created : ℕ

unfoldable pub import_tasks : ℕ → ℕ → List ImportTask → Tally → Action Tally
import_tasks feature_id task_pos [] n = pure n
import_tasks feature_id task_pos (t ∷ ts) n = do
  create_task feature_id t.title t.description t.priority task_pos n.next_task_num "task" none
  import_tasks feature_id (task_pos + 1) ts
      (record n { next_task_num = n.next_task_num + 1; tasks_created = n.tasks_created + 1 })

unfoldable pub import_features : ℕ → ℕ → List ImportFeature → Tally → Action Tally
import_features epic_id feat_pos [] n = pure n
import_features epic_id feat_pos (f ∷ fs) n = do
  feature ← create_feature epic_id f.title f.description feat_pos n.next_feat_num
  n' ←
      import_tasks feature.id 0 f.tasks (record n {
        next_feat_num = n.next_feat_num + 1;
        features_created = n.features_created + 1;
      })
  import_features epic_id (feat_pos + 1) fs n'

unfoldable pub import_epics : ℕ → ℕ → ℕ → List ImportEpic → Tally → Action Tally
import_epics project_id existing_count epic_pos [] n = pure n
import_epics project_id existing_count epic_pos (e ∷ es) n = do
  epic ←
      create_epic project_id e.title e.description e.bounded_context "" epic_pos
        (color_at epic_color_palette (existing_count + epic_pos)) n.next_epic_num
  n' ←
      import_features epic.id 0 e.features
        (record n { next_epic_num = n.next_epic_num + 1; epics_created = n.epics_created + 1 })
  import_epics project_id existing_count (epic_pos + 1) es n'

-- The counters of the project are read, and moved by one, once; the numbers of the further rows of
-- a kind are counted on from there.
unfoldable pub import_plan : ℕ → List ImportEpic → Action Tally
import_plan project_id plan = do
  existing_count ← gets (λ w. count_epics w project_id)
  epic_num ← next_epic_number project_id
  feat_num ← next_feature_number project_id
  task_num ← next_task_number project_id
  import_epics project_id existing_count 0 plan (record {
    next_epic_num = epic_num;
    next_feat_num = feat_num;
    next_task_num = task_num;
    epics_created = 0;
    features_created = 0;
    tasks_created = 0;
  })

unfoldable pub create_document :
    String → String → String → String → String → Option ℕ → Action Document
create_document title content doc_type source_path attached_to_type attached_to_id = do
  id ← uuid4
  now ← gets (λ w. w.now)
  let row : Document = record {
    id = id;
    title = title;
    content = content;
    doc_type = doc_type;
    source_path = source_path;
    attached_to_type = attached_to_type;
    attached_to_id = attached_to_id;
    created_at = now;
  }
  modify (λ w. record w { documents = w.documents ++ row ∷ [] })
  pure row
