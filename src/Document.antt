-- ===== src/Document.antt =====
-- The documents (src/document/repository.py, src/document/services.py, src/document/routes.py). Of the
-- dictionaries that the service makes of rows the model keeps the rows.
use cloglog.Base.{
  ℕ, String, Bool, true, false, ◌&&◌, Option, none, some, List, [], ◌∷◌, ◌==◌, str_eq, truthy,
  is_id, select, sort_by, find, if◌then◌else◌,
}
use cloglog.Models.{World, Document, Event, uuid, str, document_attached}
use cloglog.Action.{Action, pure, publish, gets, ◌>>=◌, ◌>>◌}
use cloglog.Board.Repository.{get_task, get_feature, get_epic}
use cloglog.Board.Service.{create_document}
use cloglog.Gateway.Outcome.{Outcome, returned, Handler, calls, uncaught, required}
pub mod Listing

-- The columns that a request may set (DocumentCreate).
pub record DocumentCreate : Type 0 where
  pub title : String
  pub content : String
  pub doc_type : String
  pub source_path : String
  pub attached_to_type : String
  pub attached_to_id : Option ℕ

unfoldable pub get_document : World → ℕ → Option Document
get_document w document_id = find (λ d. d.id == document_id) w.documents

abbrev pub list_documents : World → List Document
list_documents w = sort_by (λ d. d.created_at) w.documents

abbrev pub is_attached_to : String → ℕ → Document → Bool
is_attached_to attached_to_type attached_to_id d =
    str_eq d.attached_to_type attached_to_type && is_id d.attached_to_id attached_to_id

unfoldable pub get_documents_for_entity : World → String → ℕ → List Document
get_documents_for_entity w attached_to_type attached_to_id =
    sort_by (λ d. d.created_at)
      (select (is_attached_to attached_to_type attached_to_id) w.documents)

abbrev pub project_of_epic : World → ℕ → Option ℕ
project_of_epic w epic_id = elim (get_epic w epic_id) [ none ↦ none | some e ↦ some e.project_id ]

abbrev pub project_of_feature : World → ℕ → Option ℕ
project_of_feature w feature_id = elim (get_feature w feature_id) [
  | none ↦ none
  | some f ↦ project_of_epic w f.epic_id
]

abbrev pub project_of_task : World → ℕ → Option ℕ
project_of_task w task_id = elim (get_task w task_id) [
  | none ↦ none
  | some t ↦ project_of_feature w t.feature_id
]

unfoldable pub resolve_project_id : String → ℕ → World → Option ℕ
resolve_project_id attached_to_type attached_to_id w =
    if str_eq attached_to_type "epic"
    then project_of_epic w attached_to_id
    else if str_eq attached_to_type "feature"
    then project_of_feature w attached_to_id
    else if str_eq attached_to_type "task"
    then project_of_task w attached_to_id
    else none

abbrev pub document_event : ℕ → Document → String → ℕ → Event
document_event project_id d attached_to_type attached_to_id = record {
  type = document_attached;
  project_id = project_id;
  payload =
      ("document_id", uuid d.id)
      ∷ ("attached_to_type", str attached_to_type)
      ∷ ("attached_to_id", uuid attached_to_id)
      ∷ [];
}

-- The event of a document, in the project of what it is attached to, if there is one.
unfoldable pub announce_document : Document → String → ℕ → Action (Unit {0})
announce_document d attached_to_type attached_to_id = do
  project_id ← gets (resolve_project_id attached_to_type attached_to_id)
  elim project_id [
    | none ↦ pure tt
    | some k ↦ publish (document_event k d attached_to_type attached_to_id)
  ]

abbrev pub announce_if_attached : Document → DocumentCreate → Action (Unit {0})
announce_if_attached d body = elim body.attached_to_id [
  | none ↦ pure tt
  | some k ↦ announce_document d body.attached_to_type k
]

unfoldable pub create_document_route : DocumentCreate → Handler Document
create_document_route body = calls uncaught (do
  d ←
      create_document body.title body.content body.doc_type body.source_path body.attached_to_type
        body.attached_to_id
  announce_if_attached d body
  pure d)

unfoldable pub get_document_route : ℕ → Handler Document
get_document_route document_id w = (required 404 (get_document w document_id), w)

-- A UUID is never false.
unfoldable pub list_documents_route : Option String → Option ℕ → Handler (List Document)
list_documents_route (some ty) (some k) w =
    if truthy ty
    then (returned (get_documents_for_entity w ty k), w)
    else (returned (list_documents w), w)
list_documents_route (some ty) none w = (returned (list_documents w), w)
list_documents_route none k w = (returned (list_documents w), w)
