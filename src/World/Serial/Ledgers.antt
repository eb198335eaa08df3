-- ===== src/World/Serial/Ledgers.antt =====
-- What ties the journal to the server: the sessions that are at work, the table, and the history.
use concurrent_transactional.Prelude.{
  ℕ, Bytes, Bool, true, false, some, List, ◌≡◌, ◌⊎◌, inl, inr, sym, subst, Bool-cases,
}
use concurrent_transactional.Prelude.Map.{Map, lookup, bytes_order}
use concurrent_transactional.Store.{Store, get}
use concurrent_transactional.World.{is_ready, ready, applying, Session, World}
use concurrent_transactional.World.Invariant.{IsOrderly}
use concurrent_transactional.World.Orderly.{is_running}
use concurrent_transactional.World.Isolation.{same_locker}
use concurrent_transactional.World.Held.{HasLocked, pending_of}
use concurrent_transactional.World.Shapes.{ready-calm}
use concurrent_transactional.World.Serial.{Committed, Journal, IsSerial, replay}
use concurrent_transactional.World.Serial.Parts.{Part}

-- The session is about to apply, or applies, a buffer with the key.
abbrev pub IsWriting : Bytes → Session → Type 0
IsWriting k s =
    ((rest : Map Bytes (Bytes × Bool)) × (s.standing ≡ applying rest))
    × ((entry : Bytes × Bool) × (lookup k (pending_of s) ≡ some entry))

-- The table is that of the history, but for the keys of buffers that are being applied.
pub record Ledger (v : World) (j : Journal) : Type 0 where
  pub serial : IsSerial j.history
  pub parts : (i : ℕ) → Part (v.sessions i) (j.seen i) (replay j.history) v.shared.store
  pub table :
      (k : Bytes)
      → (get k v.shared.store ≡ get k (replay j.history)) ⊎ ((i : ℕ) × IsWriting k (v.sessions i))

pub writing-running :
    (s : Session) (k : Bytes)
    → (is_running s ≡ false → s.standing ≡ ready)
    → IsWriting k s
    → is_running s ≡ true
writing-running s k h ((rest, e), w) = elim (Bool-cases (is_running s)) [
  | inl a ↦ a
  | inr i ↦ absurd (cc (h i, e))
]

-- No other session has the key of a buffer that is being applied.
pub writer_alone :
    (v : World) (i p : ℕ) (k : Bytes)
    → IsOrderly v
    → IsWriting k (v.sessions i)
    → is_running (v.sessions p) ≡ true
    → HasLocked k (v.sessions p).manager
    → i ≡ p
writer_alone v i p k h w r (mode, l) =
    same_locker v i p k w.1.0 mode h (writing-running (v.sessions i) k (h.steady i).idle w) r w.1.1
      l

-- A ready session that has the key finds it as the history left it.
pub reader_finds :
    (v : World) (p : ℕ) (k : Bytes) (base : Store)
    → IsOrderly v
    → is_ready (v.sessions p).standing ≡ true
    → is_running (v.sessions p) ≡ true
    → HasLocked k (v.sessions p).manager
    → (get k v.shared.store ≡ get k base) ⊎ ((i : ℕ) × IsWriting k (v.sessions i))
    → get k v.shared.store ≡ get k base
reader_finds v p k base h y r l (inl e) = e
reader_finds v p k base h y r l (inr (i, w)) =
    absurd (calm (subst (λ q. IsWriting k (v.sessions q)) (writer_alone v i p k h w r l) w))
  where
    calm : IsWriting k (v.sessions p) → ⊥
    calm ((rest, e), x) = ready-calm (applying rest) (subst (λ q. is_ready q ≡ true) e y) tt

-- A ledger for a history that is that of the journal.
pub history-Ledger :
    (v : World) (j : Journal) (cs : List Committed)
    → j.history ≡ cs
    → IsSerial cs
    → ((p : ℕ) → Part (v.sessions p) (j.seen p) (replay cs) v.shared.store)
    → ((k : Bytes)
        → (get k v.shared.store ≡ get k (replay cs)) ⊎ ((p : ℕ) × IsWriting k (v.sessions p)))
    → Ledger v j
history-Ledger v j cs same s parts table = record {
  serial = subst IsSerial (sym same) s;
  parts = λ p.
      subst (λ q. Part (v.sessions p) (j.seen p) (replay q) v.shared.store) (sym same) (parts p);
  table = λ k.
      subst
        (λ q. (get k v.shared.store ≡ get k (replay q)) ⊎ ((p : ℕ) × IsWriting k (v.sessions p)))
        (sym same) (table k);
}
