-- ===== src/Recovery/Reading.antt =====
-- Reading numbers and texts from the front of a file, and the reading of the snapshot.
use concurrent_transactional.Prelude.{
  ℕ, zero, suc, ◌==◌, Bytes, Option, none, some, List, [], ◌∷◌, ◌>>=◌, if◌then◌else◌,
}
use concurrent_transactional.Wal.{little_endian}

-- `file.read(p, n)`: exactly `n` bytes, or failure.
unfoldable pub read : ℕ → Bytes → Option (Bytes × Bytes)
read zero file = some ([], file)
read (suc n) [] = none
read (suc n) (b ∷ file) = do (bs, rest) ← read n file; some (b ∷ bs, rest)

-- A 16-bit length and that many bytes.
unfoldable pub read_string : Bytes → Option (Bytes × Bytes)
unfolding read
read_string file = do (len, file) ← read 2 file; read (little_endian len) file

-- What a snapshot with a good header gives: the entries up to the end, or up to the first that is cut.
pub record Entries : Type 0 where
  pub checkpoint_lsn : ℕ
  pub entries : List (Bytes × Bytes)

abbrev pub magic_number : ℕ
magic_number = 0x4B564442

unfoldable pub read_entry : Bytes → Option ((Bytes × Bytes) × Bytes)
unfolding read_string
read_entry file = do
  (key, file) ← read_string file
  (value, file) ← read_string file
  some ((key, value), file)

-- The loop over `count` entries.
unfoldable pub read_loop : ℕ → Bytes → List (Bytes × Bytes)
read_loop zero file = []
read_loop (suc n) file = elim (read_entry file) [
  | none ↦ []
  | some (entry, rest) ↦ entry ∷ read_loop n rest
]

-- `none` is an invalid snapshot.
unfoldable pub read_entries : Bytes → Option Entries
unfolding read
read_entries file = do
  (magic, file) ← read 4 file
  (version, file) ← read 4 file
  (checkpoint_lsn, file) ← read 8 file
  (count, file) ← read 8 file
  if little_endian magic == magic_number
      then some (record {
        checkpoint_lsn = little_endian checkpoint_lsn;
        entries = read_loop (little_endian count) file;
      })
      else none
