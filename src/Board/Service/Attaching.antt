-- ===== src/Board/Service/Attaching.antt =====
-- The document that a pull request of a task becomes (`auto_attach_document_on_review`).
use cloglog.Base.{
  ℕ, String, Bool, ◌&&◌, ◌||◌, Option, none, some, List, [], ◌∷◌, str_eq, is_id, select, join_by,
  if◌then◌else◌,
}
use cloglog.Models.{World, Task, Feature, Document}
use cloglog.Action.{Action, pure, gets, scalar_one_or_none, ◌>>=◌}
use cloglog.Board.Repository.{get_feature}
use cloglog.Board.Service.Import.{create_document}

abbrev pub is_attachment : ℕ → String → Document → Bool
is_attachment feature_id pr_url d =
    str_eq d.attached_to_type "feature"
    && is_id d.attached_to_id feature_id
    && str_eq d.source_path pr_url

unfoldable pub attachments : ℕ → String → World → List Document
attachments feature_id pr_url w = select (is_attachment feature_id pr_url) w.documents

abbrev pub is_attachable : Task → Bool
is_attachable t = str_eq t.task_type "spec" || str_eq t.task_type "plan"

abbrev pub attachment_type : Task → String
attachment_type t = if str_eq t.task_type "spec" then "design_spec" else "implementation_plan"

-- `capitalize` of one of the two types.
abbrev pub attachment_title : Task → String
attachment_title t =
    join_by " — " ((if str_eq t.task_type "spec" then "Spec" else "Plan") ∷ t.title ∷ [])

abbrev pub attach : Task → String → Action (Option Document)
attach t pr_url = do
  d ←
      create_document (attachment_title t) "" (attachment_type t) pr_url "feature"
        (some t.feature_id)
  pure (some d)

-- Nothing, where there is one; else a new one.
abbrev pub attach_unless : Task → String → Option Document → Action (Option Document)
attach_unless t pr_url none = attach t pr_url
attach_unless t pr_url (some d) = pure none

abbrev pub attach_once : Task → String → Action (Option Document)
attach_once t pr_url = do
  rows ← gets (attachments t.feature_id pr_url)
  existing ← scalar_one_or_none rows
  attach_unless t pr_url existing

abbrev pub attach_to : Task → String → Option Feature → Action (Option Document)
attach_to t pr_url none = pure none
attach_to t pr_url (some f) = attach_once t pr_url

unfoldable pub auto_attach_document_on_review : Task → String → Action (Option Document)
auto_attach_document_on_review t pr_url w =
    if is_attachable t then attach_to t pr_url (get_feature w t.feature_id) w else pure none w
