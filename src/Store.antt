-- ===== src/Store.antt =====
-- gateway/src/storage/sqlite_store.rs: the tables of the SQLite database, and the statements that
-- each operation runs. What a statement does is written out; whether the engine fails at the n-th
-- statement of an operation is the argument `fault`, which gives the engine's message.
pub mod Rows
pub mod Contexts
pub mod Credentials
use ilink_gateway.Prelude.{
  ℕ, Option, none, some, List, [], ◌∷◌, ◌++◌, ltb, leb, if◌then◌else◌, length,
}
use ilink_gateway.Text.{Text, ◌==◌, codes}
use ilink_gateway.Map.{Map, lookup, insert, remove}
use ilink_gateway.Error.{Result, ok, err, storage}

abbrev pub Faults : Type 0
Faults = ℕ → Option Text

abbrev pub no_faults : Faults
no_faults n = none

-- A row of `credentials`, which is what is loaded from it too.
pub record StoredCredentials : Type 0 where
  pub account_id : Text
  pub token : Text
  pub base_url : Text
  pub user_id : Text
  pub saved_at : Text

-- A row of `msg_agent_context`.
pub record ContextRow : Type 0 where
  pub msg_id : Text
  pub context : Text
  pub created_at : ℕ

-- The rows of `credentials` and `msg_agent_context` stand in the order of their row ids.
pub record SqliteStore : Type 0 where
  pub credentials : List StoredCredentials
  pub gateway_state : Map Text
  pub contexts : List ContextRow

-- `CREATE TABLE IF NOT EXISTS`, on a new database.
unfoldable pub new : SqliteStore
new = record { credentials = []; gateway_state = []; contexts = [] }

abbrev pub Write : Type 0
Write = Result (Unit {0}) × SqliteStore

-- Runs a statement: on a fault the operation ends with the error, and the tables are as they are.
abbrev pub execute : Option Text → Text → SqliteStore → Write → Write
execute none failure s next = next
execute (some e) failure s next = (err (storage (failure ++ e)), s)

unfoldable pub save_credentials : Faults → Text → Text → Text → Text → Text → SqliteStore → Write
save_credentials fault now account_id token base_url user_id s =
    let cleared : SqliteStore = record s { credentials = [] } in
    execute (fault 0) (codes "Failed to clear credentials: ") s (
      execute (fault 1) (codes "Failed to save credentials: ") cleared (
        ok tt,
        record cleared {
          credentials =
              record {
                account_id = account_id;
                token = token;
                base_url = base_url;
                user_id = user_id;
                saved_at = now;
              }
              ∷ [];
        },
      ))

-- ORDER BY id DESC LIMIT 1
abbrev pub last_row {ℓ} : {A : Type ℓ} → List A → Option A
last_row [] = none
last_row (r ∷ []) = some r
last_row (r ∷ q ∷ rows) = last_row (q ∷ rows)

-- A query of one row, prepared and then stepped.
abbrev pub query {ℓ} :
    {A : Type ℓ} → Option Text → Option Text → Text → Text → Option A → Result (Option A)
query none none prepare load row = ok row
query none (some e) prepare load row = err (storage (load ++ e))
query (some e) _ prepare load row = err (storage (prepare ++ e))

unfoldable pub load_credentials : Faults → SqliteStore → Result (Option StoredCredentials)
load_credentials fault s =
    query (fault 0) (fault 1) (codes "Failed to prepare query: ")
      (codes "Failed to load credentials: ") (last_row s.credentials)

unfoldable pub delete_credentials : Faults → SqliteStore → Write
delete_credentials fault s =
    execute (fault 0) (codes "Failed to delete credentials: ") s
      (ok tt, record s { credentials = [] })

unfoldable pub get_state : Faults → Text → SqliteStore → Result (Option Text)
get_state fault key s =
    query (fault 0) (fault 1) (codes "Failed to prepare state query: ")
      (codes "Failed to load state '" ++ (key ++ codes "': ")) (lookup key s.gateway_state)

unfoldable pub set_state : Faults → Text → Text → SqliteStore → Write
set_state fault key value s =
    execute (fault 0) (codes "Failed to set state '" ++ (key ++ codes "': ")) s
      (ok tt, record s { gateway_state = insert key value s.gateway_state })

unfoldable pub delete_state : Faults → Text → SqliteStore → Write
delete_state fault key s =
    execute (fault 0) (codes "Failed to delete state '" ++ (key ++ codes "': ")) s
      (ok tt, record s { gateway_state = remove key s.gateway_state })

-- MSG_AGENT_CONTEXT_MAX
abbrev pub max_contexts : ℕ
max_contexts = 200

-- DELETE .. WHERE msg_id = ..
unfoldable pub delete_row : Text → List ContextRow → List ContextRow
delete_row id [] = []
delete_row id (r ∷ rows) =
    let rest = delete_row id rows in if r.msg_id == id then rest else r ∷ rest

-- INSERT OR REPLACE: the row with the key, if there is one, goes, and the new row has a new row id.
unfoldable pub replace_row : ContextRow → List ContextRow → List ContextRow
unfolding delete_row
replace_row r rows = delete_row r.msg_id rows ++ (r ∷ [])

-- ORDER BY created_at ASC, rowid ASC LIMIT 1
abbrev pub older : ContextRow → Option ContextRow → ContextRow
older r none = r
older r (some q) = if ltb q.created_at r.created_at then q else r

unfoldable pub oldest : List ContextRow → Option ContextRow
oldest [] = none
oldest (r ∷ rows) = some (older r (oldest rows))

unfoldable pub delete_oldest : List ContextRow → List ContextRow
unfolding delete_row oldest
delete_oldest rows = elim (oldest rows) [ none ↦ rows | some r ↦ delete_row r.msg_id rows ]

unfoldable pub save_msg_agent_context : Faults → ℕ → Text → Text → SqliteStore → Write
unfolding replace_row delete_oldest
save_msg_agent_context fault now msg_id context s =
    let saved : SqliteStore = record s {
      contexts =
          replace_row (record { msg_id = msg_id; context = context; created_at = now }) s.contexts;
    } in
    execute (fault 0) (codes "Failed to save msg agent context: ") s (
      execute (fault 1) (codes "Failed to count msg agent context: ") saved (
        if leb max_contexts (length saved.contexts)
        then execute (fault 2) (codes "Failed to trim msg agent context: ") saved
            (ok tt, record saved { contexts = delete_oldest saved.contexts })
        else (ok tt, saved)))

unfoldable pub find_context : Text → List ContextRow → Option Text
find_context id [] = none
find_context id (r ∷ rows) = if r.msg_id == id then some r.context else find_context id rows

unfoldable pub get_msg_agent_context : Faults → Text → SqliteStore → Result (Option Text)
unfolding find_context
get_msg_agent_context fault id s =
    query (fault 0) (fault 1) (codes "Failed to prepare msg context query: ")
      (codes "Failed to query msg agent context: ") (find_context id s.contexts)
