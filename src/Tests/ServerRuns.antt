-- ===== src/Tests/ServerRuns.antt =====
-- Runs of the server and of the commands of a session.
use concurrent_transactional.Prelude.{
  List, Bool, Bytes, codes, ◌==◌, true, false, Option, none, some, [], ◌∷◌, ◌≡◌, refl, take,
}
use concurrent_transactional.Prelude.Map.{lookup, nat_order}
use concurrent_transactional.Store.{empty}
use concurrent_transactional.Wal.{little_endian}
use concurrent_transactional.Wal.Encoding.{
  serialize_record, RecordType, body_of, payload, crc32, crc_loop, crc_shifts,
}
use concurrent_transactional.Server.{Server, recover_on_start, Meanwhile}
use concurrent_transactional.Server.Start.{recover_on_start_ignores_log}
use concurrent_transactional.Session.Lines.{
  line_and_rest, get_next_command_line, first_line, split_line, strip_return,
  get_next_command_line-first_line,
}
use concurrent_transactional.Session.{Call, closes, handle_quit}
use concurrent_transactional.Session.Commands.{IsEnded, quit_ends_transaction}
use concurrent_transactional.Tests.TransactionRuns.{shared, writer}

-- A log of 29 bytes.
abbrev begin_record : Bytes
begin_record = serialize_record 1 1 RecordType.begin [] []

no_magic : (little_endian (take 4 begin_record) == 0x4B564442) ≡ false
unfolding serialize_record body_of payload crc32 crc_loop crc_shifts
no_magic = refl

recover_on_start_ignores_log_example : recover_on_start (some begin_record) none empty ≡ empty
recover_on_start_ignores_log_example = recover_on_start_ignores_log begin_record empty no_magic

abbrev pub busy : Server
busy = record {
  shared = shared;
  txn_managers = (7, writer) ∷ [];
  next_session_id = 8;
  checkpoint_manager = true;
  data_file = none;
}

abbrev pub quiet : Server
quiet = record busy { txn_managers = [] }

abbrev pub undisturbed : Meanwhile
undisturbed = record {
  before_sync = λ s. s;
  before_number = λ s. s;
  before_entries = λ s. s;
  before_cut = λ s. s;
}

abbrev or_busy : Option (Server × Bool) → Server
or_busy none = busy
or_busy (some r) = r.0

abbrev quitting : Call
quitting = record { session = 7; manager = writer; server = busy }

known_writer : lookup 7 busy.txn_managers ≡ some writer
unfolding lookup
known_writer = refl

quit_ends_transaction_example :
    (s : Server) × (handle_quit quitting ≡ some (s, closes)) × IsEnded 7 busy s
quit_ends_transaction_example = quit_ends_transaction quitting known_writer

abbrev chunks : List Bytes
chunks = codes "ET k" ∷ (13 ∷ 10 ∷ codes "PU") ∷ []

get_next_command_line-first_line_example :
    line_and_rest (get_next_command_line (codes "G") chunks) ≡ some (codes "GET k", codes "PU")
unfolding first_line split_line strip_return
get_next_command_line-first_line_example = get_next_command_line-first_line (codes "G") chunks
