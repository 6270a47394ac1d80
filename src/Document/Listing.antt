-- ===== src/Document/Listing.antt =====
-- The documents that are listed (src/document/routes.py).
use cloglog.Base.{
  str_eq, is_id, ◌&&◌, suc, ap, ℕ, String, ◌≡◌, refl, sym, true, some, [], ◌∷◌, ◌++◌, leb, truthy,
  all, select, sort_by-append, select-append, all-select, Option-cases, Bool-cases, inl, inr,
  if◌then◌else◌,
}
use mathlib.Core.List.{append-nil}
use cloglog.Models.{World, Document}
use cloglog.Action.{ok}
use cloglog.Board.Service.{create_document}
use cloglog.Gateway.Outcome.{returned}
use cloglog.Document.{
  DocumentCreate, is_attached_to, get_documents_for_entity, resolve_project_id, announce_document,
  announce_if_attached, document_event, create_document_route, list_documents_route,
}

announce_document-keeps :
    (d : Document) (ty : String) (k : ℕ) (w : World)
    → (after : World) × (announce_document d ty k w ≡ (ok tt, after))
      × (after.documents ≡ w.documents)
unfolding announce_document
announce_document-keeps d ty k w = elim (Option-cases (resolve_project_id ty k w)) [
  | inl e ↦ (w, rw (e, announce_document) refl, refl)
  | inr (p, e) ↦ (
    record w { events = w.events ++ document_event p d ty k ∷ [] },
    rw (e, announce_document) refl,
    refl,
  )
]

announce_if_attached-keeps :
    (d : Document) (body : DocumentCreate) (w : World)
    → (after : World) × (announce_if_attached d body w ≡ (ok tt, after))
      × (after.documents ≡ w.documents)
announce_if_attached-keeps d body w = elim (Option-cases body.attached_to_id) [
  | inl e ↦ (w, rw e refl, refl)
  | inr (k, e) ↦ rw e (announce_document-keeps d body.attached_to_type k w)
]

-- The row of a created document.
abbrev row : DocumentCreate → World → Document
row body w = record {
  id = w.uuids 0;
  title = body.title;
  content = body.content;
  doc_type = body.doc_type;
  source_path = body.source_path;
  attached_to_type = body.attached_to_type;
  attached_to_id = body.attached_to_id;
  created_at = w.now;
}

create_document_route-row :
    (body : DocumentCreate) (w : World)
    → let (answer, after) = create_document_route body w in
      (answer ≡ returned (row body w)) × (after.documents ≡ w.documents ++ row body w ∷ [])
unfolding create_document_route create_document
create_document_route-row body w =
    let w0 : World = record w {
      uuids = λ n. w.uuids (suc n);
      documents = w.documents ++ row body w ∷ [];
    } in
    let (after, e, same) = announce_if_attached-keeps (row body w) body w0 in rw e (refl, same)

get_documents_for_entity-append :
    (w after : World) (d : Document) (ty : String) (k : ℕ)
    → all (λ x. leb x.created_at d.created_at) w.documents ≡ true
    → after.documents ≡ w.documents ++ d ∷ []
    → get_documents_for_entity after ty k
      ≡ get_documents_for_entity w ty k ++ (if is_attached_to ty k d then d ∷ [] else [])
unfolding get_documents_for_entity
get_documents_for_entity-append w after d ty k earlier there =
    rw (there, select-append (is_attached_to ty k) w.documents d)
      elim (Bool-cases (is_attached_to ty k d)) [
        | inl e ↦ rw e (
            sort_by-append (λ x. x.created_at) (select (is_attached_to ty k) w.documents) d
              (all-select _ _ w.documents earlier))
        | inr e ↦
            rw (e, append-nil (select (is_attached_to ty k) w.documents))
              (sym (append-nil (get_documents_for_entity w ty k)))
      ]

-- A created document is returned, with what the request gave. If the request attached it to the entity that
-- is then asked for, of that type and with that id, it is the last one listed, where no document has a
-- later time; else what is listed stays.
pub create_document_route-listed :
    (body : DocumentCreate) (w : World) (ty : String) (k : ℕ)
    → all (λ d. leb d.created_at w.now) w.documents ≡ true
    → truthy ty ≡ true
    → let (answer, after) = create_document_route body w in
      (d : Document) × (answer ≡ returned d)
      × (d.title ≡ body.title)
      × (d.content ≡ body.content)
      × (d.doc_type ≡ body.doc_type)
      × (d.source_path ≡ body.source_path)
      × (d.attached_to_type ≡ body.attached_to_type)
      × (d.attached_to_id ≡ body.attached_to_id)
      × ((list_documents_route (some ty) (some k) after).0
          ≡ returned (
              get_documents_for_entity w ty k
              ++ (if str_eq body.attached_to_type ty && is_id body.attached_to_id k
                  then d ∷ []
                  else [])))
unfolding list_documents_route
create_document_route-listed body w ty k earlier given =
    let (e, there) = create_document_route-row body w in
    (
      row body w,
      e,
      refl,
      refl,
      refl,
      refl,
      refl,
      refl,
      rw given (
          ap returned (
            get_documents_for_entity-append w (create_document_route body w).1 (row body w) ty k
              earlier there)),
    )
