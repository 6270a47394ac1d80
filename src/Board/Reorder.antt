-- ===== src/Board/Reorder.antt =====
-- The reordering of epics (src/board/repository.py): the loop, which updates one row at
-- a time, against one pass over the table.
use cloglog.Base.{
  ℕ, ◌≡◌, refl, inl, inr, Bool-cases, Option-cases, ◌&&◌, Option, none, some, List, [], ◌∷◌, ◌==◌,
  arith, map, update_where, count, contains, length, if◌then◌else◌,
}
use mathlib.Core.Path.{sym, ◌∙◌}
use mathlib.Core.List.{map-id}
use cloglog.Models.{World, Epic}
use cloglog.Action.{ok, err, value_error, ids_not_found}
use cloglog.Board.Repository.{is_epic, place_epics, reorder_epics, ids_of}

-- The last position that is listed for an id.
unfoldable last_listed : List (ℕ × ℕ) → ℕ → Option ℕ
last_listed [] k = none
last_listed ((i, pos) ∷ positions) k = elim (last_listed positions k) [
  | none ↦ if k == i then some pos else none
  | some p ↦ some p
]

abbrev placed : List (ℕ × ℕ) → Epic → Epic
placed positions e = elim (last_listed positions e.id) [
  | none ↦ e
  | some pos ↦ record e { position = pos }
]

placed-cons :
    (positions : List (ℕ × ℕ)) (pos i : ℕ) (e : Epic)
    → placed positions (if e.id == i then record e { position = pos } else e)
      ≡ placed ((i, pos) ∷ positions) e
unfolding last_listed
placed-cons positions pos i e = elim (Bool-cases (e.id == i)) [
  | inl h ↦ elim (Option-cases (last_listed positions e.id)) [
    | inl n ↦ ground arith
    | inr (p, n) ↦ ground arith
  ]
  | inr h ↦ ground arith
]

place_epics-once :
    (positions : List (ℕ × ℕ)) (pos i : ℕ) (rows : List Epic)
    → map (placed positions) (update_where (is_epic i) (λ e. record e { position = pos }) rows)
      ≡ map (placed ((i, pos) ∷ positions)) rows
unfolding update_where
place_epics-once positions pos i [] = refl
place_epics-once positions pos i (e ∷ rows) =
    rw (placed-cons positions pos i e, place_epics-once positions pos i rows)

place_epics-eq :
    (positions : List (ℕ × ℕ)) (rows : List Epic)
    → place_epics positions rows ≡ map (placed positions) rows
unfolding place_epics last_listed
place_epics-eq [] rows = sym (map-id rows)
place_epics-eq ((i, pos) ∷ positions) rows =
    place_epics-eq positions (update_where (is_epic i) (λ e. record e { position = pos }) rows)
    ∙ place_epics-once positions pos i rows

-- A reordering of epics is one pass: where the epics of the project that are listed are as many as the
-- ids of the list, every listed epic takes the last position that is listed for it, and the others
-- stay; else the call is refused and nothing changes.
reorder_epics_lem :
    (project_id : ℕ) (positions : List (ℕ × ℕ)) (w : World)
    → reorder_epics project_id positions w ≡ (
        if count (λ e. e.project_id == project_id && contains (ids_of positions) e.id) w.epics
          == length positions
        then (ok tt, record w { epics = map (placed positions) w.epics })
        else (err (value_error ids_not_found), w))
unfolding reorder_epics
reorder_epics_lem project_id positions w =
    elim (Bool-cases (
      count (λ e. e.project_id == project_id && contains (ids_of positions) e.id) w.epics
      == length positions)) [ inl h ↦ rw (h, place_epics-eq positions w.epics) | inr h ↦ rw h ]
