-- ===== src/Server/Start.antt =====
-- The start of the server gives its two files to the recovery in the wrong order.
use concurrent_transactional.Prelude.{
  ◌==◌, Bytes, false, Option, none, some, [], ◌∷◌, ◌>>=◌, ◌≡◌, refl, take,
}
use concurrent_transactional.Store.{Store}
use concurrent_transactional.Wal.{little_endian}
use concurrent_transactional.Recovery.Reading.{read, read_entries, magic_number}
use concurrent_transactional.Recovery.{load_snapshot, replay_wal, recover}
use concurrent_transactional.Server.{recover_on_start}

-- A chain whose end fails.
bind_fails {ℓ κ} :
    {A : Type ℓ} {B : Type κ} (x : Option A) (f : A → Option B)
    → ((a : A) → f a ≡ none)
    → (x >>= f) ≡ none
bind_fails none f h = refl
bind_fails (some a) f h = h a

read_entries_refused :
    (text : Bytes)
    → (little_endian (take 4 text) == magic_number) ≡ false
    → read_entries text ≡ none
unfolding read_entries read
read_entries_refused [] h = refl
read_entries_refused (a ∷ []) h = refl
read_entries_refused (a ∷ b ∷ []) h = refl
read_entries_refused (a ∷ b ∷ c ∷ []) h = refl
read_entries_refused (a ∷ b ∷ c ∷ d ∷ text) h = rw h (
    bind_fails (read 4 text) _
      (λ x. bind_fails (read 8 x.1) _ (λ y. bind_fails (read 8 y.1) _ (λ z. refl))))

-- With no data/data.db, and a wal/wal.log that does not happen to begin with the four bytes of a
-- snapshot, the recovery of a start leaves the table as it was, whatever the log commits.
pub recover_on_start_ignores_log :
    (text : Bytes) (s : Store)
    → (little_endian (take 4 text) == magic_number) ≡ false
    → recover_on_start (some text) none s ≡ s
unfolding recover_on_start recover load_snapshot replay_wal
recover_on_start_ignores_log text s h = rw (load_snapshot, read_entries_refused text h) refl
