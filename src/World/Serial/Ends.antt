-- ===== src/World/Serial/Ends.antt =====
-- The end of a commit: the transaction goes into the history, and finds there what it has read.
use concurrent_transactional.Prelude.{
  ℕ, ◌==◌, ==_iff, Bytes, Bool, true, false, none, List, [], ◌∷◌, All, ◌≡◌, ◌⊎◌, inl, inr, refl,
  sym, subst, ◌∙◌, ap, if_both, Bool-cases, Option-cases,
}
use concurrent_transactional.Prelude.Map.{Map, lookup, bytes_order}
use concurrent_transactional.Prelude.Sorted.{Sorted}
use concurrent_transactional.Store.{Store, get}
use concurrent_transactional.Transaction.{Shared, Manager, apply_pending, end_commit, release_all}
use concurrent_transactional.Transaction.Commit.{get-apply_pending, outcome}
use concurrent_transactional.World.{
  ready, applying, Session, World, update, apply_next, applies, act, acts, move,
}
use concurrent_transactional.World.Invariant.{IsOrderly}
use concurrent_transactional.World.Orderly.{is_running}
use concurrent_transactional.World.Held.{pending_of}
use concurrent_transactional.World.Serial.{
  Answered, answer_from, Committed, Journal, IsSerial, replay, end_of, seen_next, note,
}
use concurrent_transactional.World.Serial.Buffers.{outcome-some, done-Halfway}
use concurrent_transactional.World.Serial.Parts.{Holding, Part, bystander-Part}
use concurrent_transactional.World.Serial.Ledgers.{Ledger, IsWriting, writer_alone, history-Ledger}

-- The session after its commit.
record Ended (s : Session) (w : Shared) (x : Session × Shared) : Type 0 where
  stopped : is_running x.0 ≡ false
  waits_no_more : x.0.standing ≡ ready
  emptied : pending_of x.0 ≡ []
  same_store : x.1.store ≡ w.store

apply_next-Ended : (s : Session) (w : Shared) → Ended s w (apply_next (applying []) s w)
unfolding apply_next end_commit release_all
apply_next-Ended s w = record {
  stopped = refl;
  waits_no_more = refl;
  emptied = refl;
  same_store =
      if_both (λ (x : Shared). x.store ≡ w.store) s.manager.lock_manager _ _ (λ b. refl)
        (λ b. refl);
}

Holding-finds :
    (m : Manager) (base : Store) (seen : List Answered)
    → All (Holding m base) seen
    → All (λ p. answer_from (get p.0 base) ≡ p.1) seen
Holding-finds m base [] h = tt
Holding-finds m base (p ∷ seen) ((e, l), h) = (e, Holding-finds m base seen h)

module _ (i : ℕ) (v : World) (j : Journal) (h : IsOrderly v) (g : Ledger v j)
    (e : (v.sessions i).standing ≡ applying []) where
  abbrev written_now : Map Bytes (Bytes × Bool)
  written_now = pending_of (v.sessions i)

  abbrev base : Store
  base = replay j.history

  abbrev base_next : Store
  base_next = apply_pending written_now base

  running : is_running (v.sessions i) ≡ true
  running = elim (Bool-cases (is_running (v.sessions i))) [
    | inl a ↦ a
    | inr b ↦ absurd (cc ((h.steady i).idle b, e))
  ]

  ended : Ended (v.sessions i) v.shared (act applies (v.sessions i) v.shared)
  unfolding act
  ended =
      subst (λ p. Ended (v.sessions i) v.shared (apply_next p (v.sessions i) v.shared)) (sym e)
        (apply_next-Ended (v.sessions i) v.shared)

  base_next-get : (k : Bytes) → get k base_next ≡ outcome (lookup k written_now) (get k base)
  base_next-get k = get-apply_pending k written_now base (g.parts i).in_order

  unwritten : (k : Bytes) → lookup k written_now ≡ none → get k base_next ≡ get k base
  unfolding outcome
  unwritten k f = base_next-get k ∙ ap (λ x. outcome x (get k base)) f

  own-Part :
      Part
        (act applies (v.sessions i) v.shared).0
        (seen_next applies (v.sessions i) v.shared (j.seen i))
        base_next
        (act applies (v.sessions i) v.shared).1.store
  own-Part = record {
    reads_hold = λ r. absurd (cc (ended.stopped, r));
    in_order = subst (λ m. Sorted m) (sym ended.emptied) tt;
    halfway = λ rest f. absurd (cc (ended.waits_no_more, f));
  }

  other-Part :
      (p : ℕ)
      → (i == p) ≡ false
      → Part (v.sessions p) (j.seen p) base_next (act applies (v.sessions i) v.shared).1.store
  other-Part p b =
      bystander-Part (v.sessions p) (j.seen p) base base_next v.shared.store
        (act applies (v.sessions i) v.shared).1.store
        (λ r k l. elim (Option-cases (lookup k written_now)) [
          | inl f ↦ unwritten k f
          | inr (x, f) ↦
              absurd (cc (b, (==_iff i p).1 (writer_alone v i p k h (([], e), (x, f)) r l)))
        ])
        (λ rest f k x l. ap (get k) ended.same_store) (g.parts p)

  parts_after :
      (p : ℕ)
      → Part
          ((move (acts i applies) v).sessions p)
          ((note (acts i applies) v j).seen p)
          base_next
          (move (acts i applies) v).shared.store
  unfolding move update note
  parts_after p = elim (Bool-cases (i == p)) [
    | inl b ↦ rw b own-Part
    | inr b ↦ rw b (other-Part p b)
  ]

  table_after :
      (k : Bytes)
      → (get k (move (acts i applies) v).shared.store ≡ get k base_next)
        ⊎ ((p : ℕ) × IsWriting k ((move (acts i applies) v).sessions p))
  unfolding move update
  table_after k = elim (Option-cases (lookup k written_now)) [
    | inr (x, f) ↦ inl (
        ap (get k) ended.same_store
        ∙ done-Halfway written_now v.shared.store k x ((g.parts i).halfway [] e) f
        ∙ sym (base_next-get k ∙ ap (λ y. outcome y (get k base)) f ∙ outcome-some x (get k base)))
    | inl f ↦ elim (g.table k) [
      | inl same ↦ inl (ap (get k) ended.same_store ∙ same ∙ sym (unwritten k f))
      | inr (p, w) ↦ elim (Bool-cases (i == p)) [
        | inl b ↦
            absurd
              (cc (f, (subst (λ q. IsWriting k (v.sessions q)) (sym ((==_iff i p).0 b)) w).1.1))
        | inr b ↦ inr (p, rw b w)
      ]
    ]
  ]

  next_history :
      (note (acts i applies) v j).history
      ≡ record { observed = j.seen i; written = written_now } ∷ j.history
  unfolding note end_of
  next_history =
      let c : Committed = record { observed = j.seen i; written = written_now } in
      subst (λ p. end_of applies p c j.history ≡ c ∷ j.history) (sym e) refl

  next-IsSerial : IsSerial (record { observed = j.seen i; written = written_now } ∷ j.history)
  unfolding IsSerial
  next-IsSerial = (
    Holding-finds (v.sessions i).manager base (j.seen i) ((g.parts i).reads_hold running),
    g.serial,
  )

  pub end-Ledger : Ledger (move (acts i applies) v) (note (acts i applies) v j)
  unfolding replay
  end-Ledger =
      history-Ledger (move (acts i applies) v) (note (acts i applies) v j)
        (record { observed = j.seen i; written = written_now } ∷ j.history) next_history
        next-IsSerial parts_after table_after
