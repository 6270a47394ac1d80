-- ===== src/Tests/Document.antt =====
-- Documents that are created by requests, and by the reviews of tasks.
use cloglog.Base.{
  String, str_eq, is_id, ◌&&◌, ℕ, String, ◌≡◌, refl, Option, none, some, List, [], ◌∷◌, ◌++◌, map,
  if◌then◌else◌,
}
use cloglog.Models.{Task, Document}
use cloglog.Board.Repository.{get_feature}
use cloglog.Board.Service.{auto_attach_document_on_review, attachments, create_document}
use cloglog.Board.Attached.{auto_attach_document_on_review-once}
use cloglog.Gateway.Outcome.{returned, http_exception}
use cloglog.Document.{
  DocumentCreate, get_documents_for_entity, create_document_route, get_document_route, get_document,
  list_documents_route,
}
use cloglog.Document.Listing.{create_document_route-listed}
use cloglog.Tests.Sample.{sample, task}

abbrev body : DocumentCreate
body = record {
  title = "Design";
  content = "text";
  doc_type = "design_spec";
  source_path = "docs/a.md";
  attached_to_type = "epic";
  attached_to_id = some 10;
}

create_document_route-listed_example :
    let (answer, after) = create_document_route body sample in
    (d : Document) × (answer ≡ returned d)
    × (d.title ≡ "Design")
    × (d.content ≡ "text")
    × (d.doc_type ≡ "design_spec")
    × (d.source_path ≡ "docs/a.md")
    × (d.attached_to_type ≡ "epic")
    × (d.attached_to_id ≡ some 10)
    × ((list_documents_route (some "epic") (some 10) after).0
        ≡ returned (
            get_documents_for_entity sample "epic" 10
            ++ (if str_eq "epic" "epic" && is_id (some 10) 10 then d ∷ [] else [])))
create_document_route-listed_example = create_document_route-listed body sample "epic" 10 refl refl

missing : (get_document_route 5 sample).0 ≡ http_exception 404
unfolding get_document_route get_document cloglog.Base.find
missing = refl

abbrev plan_task : Task
plan_task = task 33 22 "review" "plan" none none

auto_attach_document_on_review-once_example :
    let after = (auto_attach_document_on_review plan_task "https://x/1" sample).1 in
    (auto_attach_document_on_review plan_task "https://x/1" after).1 ≡ after
auto_attach_document_on_review-once_example =
    auto_attach_document_on_review-once plan_task "https://x/1" sample

attached :
    map
      (λ d. d.source_path)
      (auto_attach_document_on_review plan_task "https://x/1" sample).1.documents
    ≡ "https://x/1" ∷ []
unfolding auto_attach_document_on_review get_feature cloglog.Base.find attachments create_document
attached = refl
