-- ===== src/Recovery/Replay.antt =====
-- The loop over the bytes of a log does what a loop over its records does.
use concurrent_transactional.Prelude.{
  ℕ, zero, suc, ◌≤◌, ==_refl, Bytes, none, List, [], ◌∷◌, ◌++◌, length, length-append, All, ◌≡◌,
  refl, arith, append_assoc, ap, ◌∙◌,
}
use concurrent_transactional.Wal.Encoding.{body_of, crc32}
use concurrent_transactional.Wal.Layout.{length-serialize_record}
use concurrent_transactional.Wal.Records.{WalRecord, serialize, bytes_of, concat}
use concurrent_transactional.Recovery.Decode.{
  IsEncodable, raw_of, read_record-serialize, rebuild_body-raw_of,
}
use concurrent_transactional.Recovery.{Scan, read_record, note_record, scan_wal}

-- Each record noted in turn.
unfoldable pub note_all : ℕ → List WalRecord → Scan → Scan
note_all c [] s = s
note_all c (r ∷ rs) s = note_all c rs (note_record c (raw_of r) s)

scan_stop :
    (fuel c : ℕ) (torn : Bytes) (s : Scan) → read_record torn ≡ none → scan_wal fuel c torn s ≡ s
unfolding scan_wal
scan_stop zero c torn s h = refl
scan_stop (suc fuel) c torn s h = rw (h, scan_wal)

scan_record :
    (fuel c : ℕ) (r : WalRecord) (rest : Bytes) (s : Scan)
    → IsEncodable r
    → scan_wal (suc fuel) c (serialize r ++ rest) s
      ≡ scan_wal fuel c rest (note_record c (raw_of r) s)
unfolding scan_wal
scan_record fuel c r rest s h = rw (
  read_record-serialize r rest h,
  rebuild_body-raw_of r h,
  ==_refl (crc32 (body_of r.lsn r.txn_id r.type r.key r.value)),
  scan_wal,
)

-- A log of records that fit the layout, followed by a text that is not a whole record, is scanned
-- up to the end of the records; the length of the file is fuel enough.
pub scan_wal-bytes_of :
    (rs : List WalRecord) (fuel c : ℕ) (torn : Bytes) (s : Scan)
    → All IsEncodable rs
    → read_record torn ≡ none
    → length (bytes_of rs ++ torn) ≤ fuel
    → scan_wal fuel c (bytes_of rs ++ torn) s ≡ note_all c rs s
unfolding note_all concat
scan_wal-bytes_of [] fuel c torn s a h f = scan_stop fuel c torn s h
scan_wal-bytes_of (r ∷ rs) zero c torn s a h f = absurd (omega (arith, f, enough r rs torn))
  where
    enough :
        (r : WalRecord) (rs : List WalRecord) (torn : Bytes)
        → 1 ≤ length ((serialize r ++ bytes_of rs) ++ torn)
    enough r rs torn = omega (
      arith,
      length-append (serialize r ++ bytes_of rs) torn,
      length-append (serialize r) (bytes_of rs),
      length-serialize_record r.lsn r.txn_id r.type r.key r.value,
    )
scan_wal-bytes_of (r ∷ rs) (suc fuel) c torn s a h f =
    rw (append_assoc (serialize r) (bytes_of rs) torn) (
      scan_record fuel c r (bytes_of rs ++ torn) s a.0
      ∙ scan_wal-bytes_of rs fuel c torn (note_record c (raw_of r) s) a.1 h (
          omega (
            arith,
            f,
            ap length (append_assoc (serialize r) (bytes_of rs) torn),
            length-append (serialize r) (bytes_of rs ++ torn),
            length-serialize_record r.lsn r.txn_id r.type r.key r.value,
          )))
