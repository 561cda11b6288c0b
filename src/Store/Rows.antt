-- ===== src/Store/Rows.antt =====
-- gateway/src/storage/sqlite_store.rs: the rows of the table of agent contexts under each statement.
use ilink_gateway.Prelude.{
  ◌+◌, ◌≤◌, ◌<◌, ◌≡◌, inl, inr, refl, ◌∙◌, Bool, true, false, ◌||◌, none, some, List, [], ◌∷◌, ◌++◌,
  arith, ltb, if◌then◌else◌, length, Bool-cases, Option-cases, length-append,
}
use ilink_gateway.Text.{Text, ◌==◌, eq_iff, eq_refl}
use ilink_gateway.Store.{ContextRow, delete_row, replace_row, oldest, delete_oldest, find_context}

length-delete_row : (id : Text) (rows : List ContextRow) → length (delete_row id rows) ≤ length rows
unfolding delete_row
length-delete_row id [] = omega arith
length-delete_row id (r ∷ rows) = ground (arith, length-delete_row id rows)

pub find_context-delete_row :
    (id j : Text) (rows : List ContextRow)
    → find_context j (delete_row id rows) ≡ (if id == j then none else find_context j rows)
unfolding find_context delete_row
find_context-delete_row id j [] = ground arith
find_context-delete_row id j (r ∷ rows) =
    ground
      (arith, find_context-delete_row id j rows, eq_iff r.msg_id id, eq_iff r.msg_id j, eq_iff id j)

find_context-append :
    (j : Text) (rows : List ContextRow) (r : ContextRow)
    → find_context j (rows ++ (r ∷ [])) ≡ elim (find_context j rows) [
      | none ↦ (if r.msg_id == j then some r.context else none)
      | some c ↦ some c
    ]
unfolding find_context
find_context-append j [] r = refl
find_context-append j (q ∷ rows) r = ground (arith, find_context-append j rows r)

-- After INSERT OR REPLACE the key has the new context, and every other key its old one.
pub find_context-replace_row :
    (r : ContextRow) (j : Text) (rows : List ContextRow)
    → find_context j (replace_row r rows)
      ≡ (if r.msg_id == j then some r.context else find_context j rows)
unfolding replace_row
find_context-replace_row r j rows =
    find_context-append j (delete_row r.msg_id rows) r
    ∙ ground (arith, find_context-delete_row r.msg_id j rows)

-- Is there a row with the key?
unfoldable pub has : Text → List ContextRow → Bool
has id [] = false
has id (r ∷ rows) = r.msg_id == id || has id rows

length-delete_has :
    (id : Text) (rows : List ContextRow)
    → has id rows ≡ true
    → length (delete_row id rows) + 1 ≤ length rows
unfolding delete_row has
length-delete_has id [] h = cc
length-delete_has id (r ∷ rows) h =
    ground (arith, length-delete_has id rows, length-delete_row id rows)

pub has-delete_row : (id : Text) (rows : List ContextRow) → has id (delete_row id rows) ≡ false
unfolding delete_row has
has-delete_row id [] = refl
has-delete_row id (r ∷ rows) = ground (arith, has-delete_row id rows)

pub oldest-has :
    (rows : List ContextRow) (q : ContextRow) → oldest rows ≡ some q → has q.msg_id rows ≡ true
unfolding oldest has
oldest-has [] q h = cc
oldest-has (r ∷ rows) q h = elim (Option-cases (oldest rows)) [
  | inl alone ↦ ground (arith, eq_refl r.msg_id)
  | inr (p, e) ↦ elim (Bool-cases (ltb p.created_at r.created_at)) [
    | inl later ↦ ground (arith, oldest-has rows p e)
    | inr first ↦ ground (arith, eq_refl r.msg_id)
  ]
]

oldest_empty : (rows : List ContextRow) → 0 < length rows → oldest rows ≡ none → ⊥
unfolding oldest
oldest_empty [] h e = omega arith
oldest_empty (r ∷ rows) h e = cc

pub delete_oldest-some :
    (rows : List ContextRow) (q : ContextRow)
    → oldest rows ≡ some q
    → delete_oldest rows ≡ delete_row q.msg_id rows
unfolding delete_oldest
delete_oldest-some rows q e = rw (e, delete_oldest)

-- A trim takes off at least one row of a table that has any.
pub length-delete_oldest :
    (rows : List ContextRow) → 0 < length rows → length (delete_oldest rows) + 1 ≤ length rows
length-delete_oldest rows h = elim (Option-cases (oldest rows)) [
  | inl empty ↦ absurd (oldest_empty rows h empty)
  | inr (q, e) ↦
      rw (delete_oldest-some rows q e) (length-delete_has q.msg_id rows (oldest-has rows q e))
]

pub length-replace_row :
    (r : ContextRow) (rows : List ContextRow) → length (replace_row r rows) ≤ length rows + 1
unfolding replace_row
length-replace_row r rows =
    omega (
      arith,
      length-append {0} (delete_row r.msg_id rows) (r ∷ []),
      length-delete_row r.msg_id rows,
    )
