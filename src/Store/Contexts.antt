-- ===== src/Store/Contexts.antt =====
-- gateway/src/storage/sqlite_store.rs: the table of agent contexts.
use ilink_gateway.Prelude.{
  ℕ, ◌≤◌, ◌<◌, ◌≡◌, inl, inr, refl, ap, ◌∙◌, Bool, true, false, ◌&&◌, Option, none, some, List, [],
  ◌∷◌, ◌++◌, arith, leb, if◌then◌else◌, length, Bool-cases,
}
use ilink_gateway.Text.{Text, ◌==◌, eq_iff}
use ilink_gateway.Error.{ok}
use ilink_gateway.Store.{
  no_faults, SqliteStore, ContextRow, max_contexts, delete_row, replace_row, older, oldest,
  delete_oldest, save_msg_agent_context, find_context, get_msg_agent_context,
}
use ilink_gateway.Store.Rows.{
  find_context-delete_row, find_context-replace_row, has, has-delete_row, oldest-has,
  delete_oldest-some, length-delete_oldest, length-replace_row,
}

-- The rows of a store after a save in which no statement fails.
abbrev pub saved_rows : ℕ → Text → Text → SqliteStore → List ContextRow
saved_rows now id context s = (save_msg_agent_context no_faults now id context s).1.contexts

-- The row that a save writes, and the rows before the trim.
abbrev pub new_row : ℕ → Text → Text → ContextRow
new_row now id context = record { msg_id = id; context = context; created_at = now }

abbrev pub written : ℕ → Text → Text → SqliteStore → List ContextRow
written now id context s = replace_row (new_row now id context) s.contexts

saved_rows-written :
    (now : ℕ) (id context : Text) (s : SqliteStore)
    → saved_rows now id context s ≡ (
        if leb max_contexts (length (written now id context s))
        then delete_oldest (written now id context s)
        else written now id context s)
unfolding save_msg_agent_context
saved_rows-written now id context s = ground arith

trimmed_bound :
    (rows : List ContextRow)
    → length rows ≤ max_contexts
    → length (if leb max_contexts (length rows) then delete_oldest rows else rows) < max_contexts
trimmed_bound rows h = ground (arith, length-delete_oldest rows)

-- Where no statement fails, a table of at most 199 rows has at most 199 rows after a save: the
-- limit of 200 rows is never reached.
pub saved_rows_bound :
    (now : ℕ) (id context : Text) (s : SqliteStore)
    → length s.contexts < max_contexts
    → length (saved_rows now id context s) < max_contexts
saved_rows_bound now id context s h = rw saved_rows-written (
    trimmed_bound (written now id context s)
      (omega (arith, length-replace_row (new_row now id context) s.contexts)))

-- No row is newer than the time.
abbrev pub AllBefore : ℕ → List ContextRow → Type 0
AllBefore now [] = Unit
AllBefore now (r ∷ rows) = (r.created_at ≤ now) × AllBefore now rows

oldest-append :
    (r q : ContextRow) (rows : List ContextRow)
    → AllBefore q.created_at (r ∷ rows)
    → oldest ((r ∷ rows) ++ (q ∷ [])) ≡ oldest (r ∷ rows)
unfolding oldest
oldest-append r q [] h = ground arith
oldest-append r q (p ∷ rows) h =
    ap (λ (o : Option ContextRow). some (older r o)) (oldest-append p q rows h.1)

AllBefore-delete_row :
    (now : ℕ) (id : Text) (rows : List ContextRow)
    → AllBefore now rows
    → AllBefore now (delete_row id rows)
unfolding delete_row
AllBefore-delete_row now id [] h = tt
AllBefore-delete_row now id (r ∷ rows) h = ground (arith, AllBefore-delete_row now id rows)

other_key :
    (id j : Text) (rows : List ContextRow)
    → has id rows ≡ false
    → has j rows ≡ true
    → (j == id) ≡ false
other_key id j rows absent there = ground (arith, eq_iff j id)

full_oldest_rows :
    (now : ℕ) (id context : Text) (others : List ContextRow)
    → AllBefore now others
    → has id others ≡ false
    → max_contexts ≤ length (others ++ (new_row now id context ∷ []))
    → (q : ContextRow) × (oldest (others ++ (new_row now id context ∷ [])) ≡ some q)
      × ((q.msg_id == id) ≡ false)
full_oldest_rows now id context [] h absent full = absurd (omega arith)
full_oldest_rows now id context (r ∷ rows) h absent full =
    let q = older r (oldest rows) in
    let e : oldest (r ∷ rows) ≡ some q = unfold oldest in refl in
    (
      q,
      oldest-append r (new_row now id context) rows h ∙ e,
      other_key id q.msg_id (r ∷ rows) absent (oldest-has (r ∷ rows) q e),
    )

-- The rows of the other keys, none of which is newer than the time of the save.
full_oldest :
    (now : ℕ) (id context : Text) (s : SqliteStore)
    → AllBefore now s.contexts
    → max_contexts ≤ length (written now id context s)
    → (q : ContextRow) × (oldest (written now id context s) ≡ some q) × ((q.msg_id == id) ≡ false)
unfolding replace_row
full_oldest now id context s h full =
    full_oldest_rows now id context (delete_row id s.contexts)
      (AllBefore-delete_row now id s.contexts h) (has-delete_row id s.contexts) full

abbrev pub has_key : Text → Option ContextRow → Bool
has_key j none = false
has_key j (some q) = q.msg_id == j

-- Does a save trim the row of this key?
abbrev pub evicts : ℕ → Text → Text → SqliteStore → Text → Bool
evicts now id context s j =
    leb max_contexts (length (written now id context s))
    && has_key j (oldest (written now id context s))

find_context-trimmed :
    (id context j : Text) (rows old : List ContextRow) (q : ContextRow)
    → oldest rows ≡ some q
    → (q.msg_id == id) ≡ false
    → find_context j rows ≡ (if id == j then some context else find_context j old)
    → find_context j (delete_oldest rows)
      ≡ (if id == j then some context else if q.msg_id == j then none else find_context j old)
find_context-trimmed id context j rows old q e other h =
    rw (delete_oldest-some rows q e, find_context-delete_row, h)
      (ground (arith, eq_iff q.msg_id id, eq_iff id j, eq_iff q.msg_id j))

find_context-saved :
    (now : ℕ) (id context j : Text) (s : SqliteStore)
    → AllBefore now s.contexts
    → find_context j (saved_rows now id context s) ≡ (
        if id == j
        then some context
        else if evicts now id context s j
        then none
        else find_context j s.contexts)
find_context-saved now id context j s h =
    let w = find_context-replace_row (new_row now id context) j s.contexts in
    elim (Bool-cases (leb max_contexts (length (written now id context s)))) [
      | inl full ↦
          let (q, e, other) = full_oldest now id context s h (ground (arith, full)) in
          rw (saved_rows-written, full, e)
            (find_context-trimmed id context j (written now id context s) s.contexts q e other w)
      | inr room ↦ rw (saved_rows-written, room) w
    ]

-- Where no statement fails and no stored row is newer than the present, a save makes its message's
-- context readable, and every other message keeps its own, but for the oldest row of a full table.
pub get-save_msg_agent_context :
    (now : ℕ) (id context j : Text) (s : SqliteStore)
    → AllBefore now s.contexts
    → get_msg_agent_context no_faults j (save_msg_agent_context no_faults now id context s).1 ≡ (
        if id == j
        then ok (some context)
        else if evicts now id context s j
        then ok none
        else get_msg_agent_context no_faults j s)
unfolding get_msg_agent_context
get-save_msg_agent_context now id context j s h =
    ground (arith, find_context-saved now id context j s h)
