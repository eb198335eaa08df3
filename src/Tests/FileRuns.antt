-- ===== src/Tests/FileRuns.antt =====
-- Runs of the checkpoint and of the parser.
use concurrent_transactional.Prelude.{Bytes, codes, some, List, [], ◌∷◌, All, ◌≡◌, refl, arith}
use concurrent_transactional.Store.{empty}
use concurrent_transactional.Wal.Encoding.{RecordType, serialize_record}
use concurrent_transactional.Recovery.{put_entries, load_snapshot, recover}
use concurrent_transactional.Recovery.Decode.{IsEncodable}
use concurrent_transactional.Checkpoint.{snapshot_text, truncate_wal}
use concurrent_transactional.Checkpoint.Snapshot.{IsShort, load_snapshot-snapshot_text}
use concurrent_transactional.Checkpoint.Truncation.{IsPlain, truncate_wal_plain}
use concurrent_transactional.Checkpoint.Numbering.{commits_after_restart_lost}
use concurrent_transactional.Parser.{Command, parse, is_space}
use concurrent_transactional.Parser.Words.{IsWord}
use concurrent_transactional.Parser.RoundTrip.{print, parse-print}
use concurrent_transactional.Tests.LogRuns.{log, flushed_wal, flushed_reached}

abbrev rows : List (Bytes × Bytes)
rows = (codes "a", codes "1") ∷ (codes "b", []) ∷ []

rows-IsShort : All IsShort rows
rows-IsShort = ((omega arith, omega arith), ((omega arith, omega arith), tt))

load_snapshot-snapshot_text_example :
    load_snapshot (some (snapshot_text 5 rows)) empty
    ≡ record { store = put_entries rows empty; checkpoint_lsn = 5 }
load_snapshot-snapshot_text_example =
    load_snapshot-snapshot_text 5 rows empty (omega arith) (omega arith) rows-IsShort

truncate_wal_plain_example :
    truncate_wal 3 (some (serialize_record 9 1 RecordType.commit [] [])) ≡ some []
truncate_wal_plain_example = truncate_wal_plain 3 9 1 RecordType.commit [] [] IsPlain.commit

log-IsEncodable : All IsEncodable log
log-IsEncodable = (
  record { lsn = omega arith; txn_id = omega arith; texts = (refl, refl) },
  (record { lsn = omega arith; txn_id = omega arith; texts = (refl, refl) }, tt),
)

commits_after_restart_lost_example :
    recover (some (snapshot_text 5 rows)) (some flushed_wal.synced) empty ≡ put_entries rows empty
commits_after_restart_lost_example =
    commits_after_restart_lost 5 rows log flushed_wal empty (omega arith) (omega arith) rows-IsShort
      flushed_reached log-IsEncodable (omega arith)

abbrev put_command : Command
put_command = record { name = codes "PUT"; args = codes "k" ∷ codes "v" ∷ [] }

put-IsWord : IsWord (codes "PUT")
unfolding is_space
put-IsWord = record { some_byte = refl; no_space = (refl, (refl, (refl, tt))) }

args-IsWord : All IsWord put_command.args
unfolding is_space
args-IsWord = (
  record { some_byte = refl; no_space = (refl, tt) },
  (record { some_byte = refl; no_space = (refl, tt) }, tt),
)

parse-print_example : parse (print put_command) ≡ some put_command
parse-print_example = parse-print put_command put-IsWord (refl, (refl, (refl, tt))) args-IsWord
