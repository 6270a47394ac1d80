-- ===== src/Board/Attached.antt =====
-- The documents of reviewed tasks are attached once (src/board/services.py).
use cloglog.Base.{
  String, ◌≡◌, refl, inl, inr, true, Option, none, some, [], ◌∷◌, select, select-append, str_eq,
  ==_self, Bool-cases, List-cases,
}
use cloglog.Models.{World, Task, Feature, Document}
use cloglog.Board.Repository.{get_feature}
use cloglog.Board.Service.{
  create_document, attachments, is_attachment, is_attachable, attach_once, attach_to, attach,
  auto_attach_document_on_review, attachment_title, attachment_type,
}
use text.Mathlib.TextEquality.{eq_iff}

abbrev attachment : Task → String → World → Document
attachment t pr_url w = record {
  id = w.uuids 0;
  title = attachment_title t;
  content = "";
  doc_type = attachment_type t;
  source_path = pr_url;
  attached_to_type = "feature";
  attached_to_id = some t.feature_id;
  created_at = w.now;
}

-- The tables with the new document.
abbrev attached : Task → String → World → World
attached t pr_url w = (attach t pr_url w).1

attachments-attached :
    (t : Task) (pr_url : String) (w : World)
    → attachments t.feature_id pr_url w ≡ []
    → (d : Document) × (attachments t.feature_id pr_url (attached t pr_url w) ≡ d ∷ [])
unfolding attachments create_document
attachments-attached t pr_url w h =
    let same : str_eq pr_url pr_url ≡ true = (eq_iff pr_url pr_url).1 refl in
    let before : select (is_attachment t.feature_id pr_url) w.documents ≡ [] = h in
    (
      attachment t pr_url w,
      rw
          (
            select-append (is_attachment t.feature_id pr_url) w.documents (attachment t pr_url w),
            before,
            ==_self t.feature_id,
            same,
          )
          refl,
    )

attach_once-once :
    (t : Task) (pr_url : String) (w : World)
    → let after = (attach_once t pr_url w).1 in
      ((attach_once t pr_url after).1 ≡ after) × (after.features ≡ w.features)
unfolding create_document
attach_once-once t pr_url w = elim (List-cases (attachments t.feature_id pr_url w)) [
  | inl e ↦ let (d, there) = attachments-attached t pr_url w e in rw (e, there) (refl, refl)
  | inr (d, ds, e) ↦ elim (List-cases ds) [
    | inl k ↦ rw (e, k, e, k) (refl, refl)
    | inr (d2, ds2, k) ↦ rw (e, k, e, k) (refl, refl)
  ]
]

attach_to-once :
    (t : Task) (pr_url : String) (w : World) (found : Option Feature)
    → let after = (attach_to t pr_url found w).1 in
      ((attach_to t pr_url found after).1 ≡ after) × (after.features ≡ w.features)
attach_to-once t pr_url w none = (refl, refl)
attach_to-once t pr_url w (some f) = attach_once-once t pr_url w

-- Attaching again changes nothing: whatever a first call for a task and a pull request answers or raises,
-- a second one leaves the tables as they are.
pub auto_attach_document_on_review-once :
    (t : Task) (pr_url : String) (w : World)
    → let after = (auto_attach_document_on_review t pr_url w).1 in
      (auto_attach_document_on_review t pr_url after).1 ≡ after
unfolding auto_attach_document_on_review get_feature
auto_attach_document_on_review-once t pr_url w = elim (Bool-cases (is_attachable t)) [
  | inl e ↦
      let (once, same) = attach_to-once t pr_url w (get_feature w t.feature_id) in rw (e, same) once
  | inr e ↦ rw e refl
]
