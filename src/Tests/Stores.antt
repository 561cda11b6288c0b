-- ===== src/Tests/Stores.antt =====
-- The tables of the store at concrete inputs.
use ilink_gateway.Prelude.{
  ℕ, ◌<◌, ◌≡◌, refl, none, some, [], ◌∷◌, ◌++◌, arith, nat_eq, if◌then◌else◌, length,
}
use ilink_gateway.Text.{Text, ◌==◌, codes}
use ilink_gateway.Error.{err, ok, storage}
use ilink_gateway.Store.{
  SqliteStore, ContextRow, Faults, no_faults, max_contexts, save_credentials, load_credentials,
  save_msg_agent_context, get_msg_agent_context,
}
use ilink_gateway.Store.Contexts.{saved_rows, saved_rows_bound, get-save_msg_agent_context, evicts}
use ilink_gateway.Store.Credentials.{save_credentials_loses}
use ilink_gateway.Tests.{hermes, zeus}

abbrev row : Text → ℕ → ContextRow
row id at = record { msg_id = id; context = codes "{}"; created_at = at }

abbrev store : SqliteStore
store = record {
  credentials =
      record {
        account_id = codes "bot";
        token = codes "t";
        base_url = codes "https://h";
        user_id = codes "u";
        saved_at = codes "0";
      }
      ∷ [];
  gateway_state = [];
  contexts = row hermes 3 ∷ row zeus 5 ∷ [];
}

saved_rows_bound_example : length (saved_rows 9 (codes "m") (codes "{}") store) < max_contexts
saved_rows_bound_example = saved_rows_bound 9 (codes "m") (codes "{}") store (omega arith)

get-save_msg_agent_context_example :
    get_msg_agent_context no_faults zeus
      (save_msg_agent_context no_faults 9 hermes (codes "{1}") store).1
    ≡ (if hermes == zeus
        then ok (some (codes "{1}"))
        else if evicts 9 hermes (codes "{1}") store zeus
        then ok none
        else get_msg_agent_context no_faults zeus store)
get-save_msg_agent_context_example =
    get-save_msg_agent_context 9 hermes (codes "{1}") zeus store (omega arith, (omega arith, tt))

-- The table fails at the insert, the second statement.
abbrev full_disk : Faults
full_disk n = if nat_eq n 1 then some (codes "disk full") else none

save_credentials_loses_example :
    ((save_credentials full_disk
        (codes "1")
        (codes "bot")
        (codes "t2")
        (codes "https://h")
        (codes "u")
        store).0
      ≡ err (storage (codes "Failed to save credentials: " ++ codes "disk full")))
    × (load_credentials no_faults
          (save_credentials full_disk
            (codes "1")
            (codes "bot")
            (codes "t2")
            (codes "https://h")
            (codes "u")
            store).1
        ≡ ok none)
save_credentials_loses_example =
    save_credentials_loses full_disk (codes "disk full") (codes "1") (codes "bot") (codes "t2")
      (codes "https://h") (codes "u") store refl refl

-- What was stored before is there until then.
stored_before :
    load_credentials no_faults store
    ≡ ok (
        some (record {
          account_id = codes "bot";
          token = codes "t";
          base_url = codes "https://h";
          user_id = codes "u";
          saved_at = codes "0";
        }))
unfolding load_credentials
stored_before = refl
