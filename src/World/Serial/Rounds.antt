-- ===== src/World/Serial/Rounds.antt =====
-- A round of the loop that applies a buffer keeps the ledger.
use concurrent_transactional.Prelude.{
  ℕ, ◌==◌, ==_iff, Bytes, bytes_eq, bytes_eq_iff, Bool, true, false, [], ◌∷◌, ◌≡◌, ◌⊎◌, inl, inr,
  refl, sym, subst, ◌∙◌, ap, if◌then◌else◌, if_both, Bool-cases, Option-cases,
}
use concurrent_transactional.Prelude.Map.{Map, lookup, bytes_order}
use concurrent_transactional.Types.{LockMode}
use concurrent_transactional.Store.{get}
use concurrent_transactional.Locks.{entry_in}
use concurrent_transactional.Locks.Holds.{Holds}
use concurrent_transactional.Transaction.{Shared, apply_pending}
use concurrent_transactional.World.{
  applying, Session, World, update, apply_next, applies, act, acts, move,
}
use concurrent_transactional.World.Invariant.{IsOrderly}
use concurrent_transactional.World.Steps.{Holds-shared}
use concurrent_transactional.World.Orderly.{is_running, txn_of}
use concurrent_transactional.World.Writes.{
  lookup-Holds, same_holder, act-Untouched, get-apply_other,
}
use concurrent_transactional.World.Held.{pending_of}
use concurrent_transactional.World.Shapes.{applying_inj}
use concurrent_transactional.World.Serial.{
  Committed, Journal, replay, look, end_of, seen_next, note,
}
use concurrent_transactional.World.Serial.Buffers.{Halfway, next-Halfway, first_inside}
use concurrent_transactional.World.Serial.Parts.{Part, kept_reads, bystander-Part}
use concurrent_transactional.World.Serial.Ledgers.{
  Ledger, IsWriting, writing-running, history-Ledger,
}

-- Two sessions, the one with a key written, the other with the key exclusively.
pub same_writer :
    (v : World) (i p : ℕ) (k : Bytes)
    → IsOrderly v
    → is_running (v.sessions i) ≡ true
    → Holds (txn_of (v.sessions i)) LockMode.exclusive (entry_in k v.shared.locks.table)
    → IsWriting k (v.sessions p)
    → i ≡ p
same_writer v i p k h a l w =
    let r = writing-running (v.sessions p) k (h.steady p).idle w in
    h.distinct i p a r (
      same_holder (txn_of (v.sessions i)) (txn_of (v.sessions p)) (entry_in k v.shared.locks.table)
        (h.sound.at k) l
        (Holds-shared (txn_of (v.sessions p)) (entry_in k v.shared.locks.table) (
          lookup-Holds (txn_of (v.sessions p)) LockMode.exclusive v.shared.locks k w.1.0
            (pending_of (v.sessions p)) ((h.steady p).locked r).writes w.1.1)))

module _ (i : ℕ) (v : World) (j : Journal) (h : IsOrderly v) (g : Ledger v j) (key : Bytes)
    (entry : Bytes × Bool) (rest : Map Bytes (Bytes × Bool))
    (e : (v.sessions i).standing ≡ applying ((key, entry) ∷ rest)) where
  abbrev after : Session × Shared
  after = (
    record (v.sessions i) { standing = applying rest },
    record v.shared { store = apply_pending ((key, entry) ∷ []) v.shared.store },
  )

  round : act applies (v.sessions i) v.shared ≡ after
  unfolding act apply_next
  round = subst (λ p. apply_next p (v.sessions i) v.shared ≡ after) (sym e) refl

  writes_key : IsWriting key after.0
  writes_key = elim (Option-cases (lookup key (pending_of (v.sessions i)))) [
    | inl f ↦ absurd (
        first_inside key entry rest (pending_of (v.sessions i)) v.shared.store
          ((g.parts i).halfway ((key, entry) ∷ rest) e) f)
    | inr (x, f) ↦ ((rest, refl), (x, f))
  ]

  own-Part :
      Part after.0
        (seen_next applies (v.sessions i) v.shared (j.seen i))
        (replay j.history)
        after.1.store
  unfolding seen_next look
  own-Part = record {
    reads_hold = λ r.
        kept_reads (v.sessions i) after.0 (j.seen i) [] (replay j.history) (g.parts i).reads_hold
          (λ a b k l. l) r tt;
    in_order = (g.parts i).in_order;
    halfway = λ rest' f.
        subst (λ q. Halfway q (pending_of (v.sessions i)) after.1.store) (sym (applying_inj f))
          (next-Halfway (key, entry) rest (pending_of (v.sessions i)) v.shared.store
            ((g.parts i).halfway ((key, entry) ∷ rest) e));
  }

  other-Part :
      (p : ℕ) → (i == p) ≡ false → Part (v.sessions p) (j.seen p) (replay j.history) after.1.store
  other-Part p b =
      bystander-Part (v.sessions p) (j.seen p) (replay j.history) (replay j.history) v.shared.store
        after.1.store (λ r k l. refl)
        (λ rest' f k x l. elim (act-Untouched applies k (v.sessions i) v.shared (h.steady i)) [
          | inl same ↦ sym (ap (λ (y : Session × Shared). get k y.1.store) round) ∙ same
          | inr (a, held) ↦
              absurd (cc (b, (==_iff i p).1 (same_writer v i p k h a held ((rest', f), (x, l)))))
        ])
        (g.parts p)

  parts_after :
      (p : ℕ)
      → Part
          ((move (acts i applies) v).sessions p)
          ((note (acts i applies) v j).seen p)
          (replay j.history)
          (move (acts i applies) v).shared.store
  unfolding move update note
  parts_after p =
      subst
        (λ (y : Session × Shared).
          Part (if i == p then y.0 else v.sessions p)
            (if i == p then seen_next applies (v.sessions i) v.shared (j.seen i) else j.seen p)
            (replay j.history) y.1.store)
        (sym round)
        (elim (Bool-cases (i == p)) [ inl b ↦ rw b own-Part | inr b ↦ rw b (other-Part p b) ])

  table_round :
      (k : Bytes)
      → (get k after.1.store ≡ get k (replay j.history))
        ⊎ ((p : ℕ) × IsWriting k (update i after.0 v.sessions p))
  unfolding update
  table_round k = elim (Bool-cases (bytes_eq key k)) [
    | inl same ↦ inr (
      i,
      if_both (IsWriting k) (i == i) _ _
          (λ b. subst (λ q. IsWriting q after.0) ((bytes_eq_iff key k).0 same) writes_key)
          (λ b. absurd (cc (b, (==_iff i i).1 refl))),
    )
    | inr other ↦ elim (g.table k) [
      | inl f ↦ inl (get-apply_other k key entry v.shared.store other ∙ f)
      | inr (p, w) ↦ inr (
        p,
        if_both (IsWriting k) (i == p) _ _
            (λ b. (
              (rest, refl),
              (subst (λ q. IsWriting k (v.sessions q)) (sym ((==_iff i p).0 b)) w).1,
            ))
            (λ b. w),
      )
    ]
  ]

  table_after :
      (k : Bytes)
      → (get k (move (acts i applies) v).shared.store ≡ get k (replay j.history))
        ⊎ ((p : ℕ) × IsWriting k ((move (acts i applies) v).sessions p))
  unfolding move
  table_after k =
      subst
        (λ (y : Session × Shared).
          (get k y.1.store ≡ get k (replay j.history))
          ⊎ ((p : ℕ) × IsWriting k (update i y.0 v.sessions p)))
        (sym round) (table_round k)

  same_history : (note (acts i applies) v j).history ≡ j.history
  unfolding note end_of
  same_history =
      let c : Committed = record { observed = j.seen i; written = pending_of (v.sessions i) } in
      subst (λ p. end_of applies p c j.history ≡ j.history) (sym e) refl

  pub round-Ledger : Ledger (move (acts i applies) v) (note (acts i applies) v j)
  round-Ledger =
      history-Ledger (move (acts i applies) v) (note (acts i applies) v j) j.history same_history
        g.serial parts_after table_after
