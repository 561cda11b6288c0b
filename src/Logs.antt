-- ===== src/Logs.antt =====
-- `cleanup_old_logs` of gateway/src/main.rs. The directory, the metadata, the calendar and the
-- removal of a file are arguments.
pub mod Days
use ilink_gateway.Prelude.{
  Bool, true, false, not, ◌&&◌, ◌||◌, Option, none, some, List, [], ◌∷◌, ltb, nat_eq, if◌then◌else◌,
}
use ilink_gateway.Text.{Text, codes, ◌==◌}

-- The order of strings.
unfoldable pub text_lt : Text → Text → Bool
text_lt [] [] = false
text_lt [] (d ∷ t) = true
text_lt (c ∷ s) [] = false
text_lt (c ∷ s) (d ∷ t) = let rest = text_lt s t in ltb c d || (nat_eq c d && rest)

-- The day of the last change, in local time, as the calendar prints it; none, if it is not known.
pub record Metadata : Type 0 where
  pub is_file : Bool
  pub file_day : Option Text

pub record DirEntry : Type 0 where
  pub path : Text
  pub extension : Option Text
  pub metadata : Option Metadata

abbrev pub is_log : Option Text → Bool
is_log none = false
is_log (some e) = e == codes "log"

abbrev pub is_old : Text → Option Text → Bool
is_old today none = false
is_old today (some day) = text_lt day today

-- Does the loop ask for the removal of this entry? An entry that cannot be read is none.
unfoldable pub is_removed : Text → Option DirEntry → Bool
unfolding text_lt
is_removed today none = false
is_removed today (some e) =
    is_log e.extension
    && elim e.metadata [ none ↦ false | some m ↦ m.is_file && is_old today m.file_day ]

-- The entries that are left; a removal that fails is logged.
unfoldable pub sweep_logs : (Text → Bool) → Text → List (Option DirEntry) → List (Option DirEntry)
unfolding is_removed
sweep_logs fails today [] = []
sweep_logs fails today (entry ∷ entries) =
    let rest = sweep_logs fails today entries in
    if is_removed today entry && not (elim entry [ none ↦ true | some e ↦ fails e.path ])
    then rest
    else entry ∷ rest

-- The directory is none where it does not exist.
unfoldable pub cleanup_old_logs :
    (Text → Bool) → Text → Option (List (Option DirEntry)) → Option (List (Option DirEntry))
unfolding sweep_logs
cleanup_old_logs fails today none = none
cleanup_old_logs fails today (some entries) = some (sweep_logs fails today entries)
