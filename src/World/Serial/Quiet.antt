-- ===== src/World/Serial/Quiet.antt =====
-- A step that applies nothing keeps the ledger.
use concurrent_transactional.Prelude.{
  ℕ, ◌==◌, ==_iff, Bytes, Bool, true, false, ◌&&◌, Option, none, some, List, All, ◌≡◌, ◌⊎◌, inl,
  inr, refl, sym, subst, ◌∙◌, ap, if_both, Bool-cases,
}
use concurrent_transactional.Prelude.Tests.{==_refl}
use concurrent_transactional.Prelude.Map.{lookup, bytes_order}
use concurrent_transactional.Store.{get}
use concurrent_transactional.World.{
  Standing, is_ready, ready, for_lock, for_flush, applying, Session, World, update, Act, starts,
  requests, resumes, commits, passes, applies, aborts, act, acts, move,
}
use concurrent_transactional.World.Invariant.{IsOrderly}
use concurrent_transactional.World.Orderly.{is_running}
use concurrent_transactional.World.Held.{HasLocked, pending_of}
use concurrent_transactional.World.Shapes.{Mild, IsMild, act-Mild}
use concurrent_transactional.World.Serial.{
  answer_from, Committed, Journal, replay, read_by, is_unset, look, end_of, seen_next, note,
}
use concurrent_transactional.World.Serial.Parts.{Holding, Part, Mild-Part, bystander-Part}
use concurrent_transactional.World.Serial.Reads.{act-reads, reply_to-answer_from}
use concurrent_transactional.World.Serial.Ledgers.{Ledger, IsWriting, reader_finds, history-Ledger}

pub update-same : (i : ℕ) (s : Session) (f : ℕ → Session) → update i s f i ≡ s
unfolding update
update-same i s f = rw (==_refl i) refl

end_of-mild :
    (a : Act) (p : Standing) (c : Committed) (cs : List Committed)
    → IsMild a p
    → end_of a p c cs ≡ cs
unfolding end_of
end_of-mild (starts level) p c cs m = refl
end_of-mild (requests r) p c cs m = refl
end_of-mild resumes p c cs m = refl
end_of-mild commits p c cs m = refl
end_of-mild passes p c cs m = refl
end_of-mild applies ready c cs m = refl
end_of-mild applies (for_lock r cell) c cs m = refl
end_of-mild applies (for_flush lsn) c cs m = refl
end_of-mild applies (applying rest) c cs m = absurd (m tt)
end_of-mild aborts p c cs m = refl

all_three : (a b c : Bool) → (a && (b && c)) ≡ true → (a ≡ true) × ((b ≡ true) × (c ≡ true))
all_three true true c e = (refl, (refl, e))
all_three true false c e = cc e
all_three false b c e = cc e

module _ (a : Act) (i : ℕ) (v : World) (j : Journal) (h : IsOrderly v)
    (h' : IsOrderly (move (acts i a) v)) (m : IsMild a (v.sessions i).standing)
    (g : Ledger v j) where
  mild : Mild (v.sessions i) v.shared (act a (v.sessions i) v.shared)
  mild = act-Mild a (v.sessions i) v.shared m (h.steady i)

  table_after :
      (k : Bytes)
      → (get k (move (acts i a) v).shared.store ≡ get k (replay j.history))
        ⊎ ((p : ℕ) × IsWriting k ((move (acts i a) v).sessions p))
  unfolding move update
  table_after k = elim (g.table k) [
    | inl e ↦ inl (ap (get k) mild.same_store ∙ e)
    | inr (p, w) ↦ inr (
      p,
      if_both (IsWriting k) (i == p) _ _
          (λ b.
            let w' = subst (λ q. IsWriting k (v.sessions q)) (sym ((==_iff i p).0 b)) w in
            subst (IsWriting k) (sym (mild.stays w'.0.0 w'.0.1)) w')
          (λ b. w),
    )
  ]

  own_table :
      (k : Bytes)
      → is_ready (act a (v.sessions i) v.shared).0.standing ≡ true
      → is_running (act a (v.sessions i) v.shared).0 ≡ true
      → HasLocked k (act a (v.sessions i) v.shared).0.manager
      → get k v.shared.store ≡ get k (replay j.history)
  unfolding move
  own_table k y r l =
      let same = update-same i (act a (v.sessions i) v.shared).0 v.sessions in
      sym (ap (get k) mild.same_store)
      ∙ reader_finds (move (acts i a) v) i k (replay j.history) h'
          (subst (λ x. is_ready x.standing ≡ true) (sym same) y)
          (subst (λ x. is_running x ≡ true) (sym same) r)
          (subst (λ x. HasLocked k x.manager) (sym same) l) (table_after k)

  found :
      (key : Option Bytes)
      → read_by a (v.sessions i).standing ≡ key
      → All
          (Holding (act a (v.sessions i) v.shared).0.manager (replay j.history))
          (look key (v.sessions i) (act a (v.sessions i) v.shared).0 v.shared)
  unfolding look
  found none e = tt
  found (some key) e =
      let x = (act a (v.sessions i) v.shared).0 in
      if_both (All (Holding x.manager (replay j.history)))
        (is_ready x.standing && (is_running x && is_unset (lookup key (pending_of (v.sessions i)))))
        _ _
        (λ b.
          let (y, (r, u)) = all_three (is_ready x.standing) (is_running x) _ b in
          let l = act-reads a key (v.sessions i) v.shared (h.steady i) e y r in
          let found_here =
            reply_to-answer_from key (v.sessions i).manager v.shared
              (h.steady i).connected.store_set u in
          ((sym (found_here ∙ ap answer_from (own_table key y r l)), l), tt))
        (λ b. tt)

  parts_after :
      (p : ℕ)
      → Part
          ((move (acts i a) v).sessions p)
          ((note (acts i a) v j).seen p)
          (replay j.history)
          (move (acts i a) v).shared.store
  unfolding move update note seen_next
  parts_after p = elim (Bool-cases (i == p)) [
    | inl b ↦ rw b (
        Mild-Part (v.sessions i) v.shared (act a (v.sessions i) v.shared) (j.seen i)
          (look (read_by a (v.sessions i).standing) (v.sessions i) (act a (v.sessions i) v.shared).0
            v.shared)
          (replay j.history) mild (λ r. found (read_by a (v.sessions i).standing) refl) (g.parts i))
    | inr b ↦ rw b (
        bystander-Part (v.sessions p) (j.seen p) (replay j.history) (replay j.history)
          v.shared.store (act a (v.sessions i) v.shared).1.store (λ r k l. refl)
          (λ rest e k entry f. ap (get k) mild.same_store) (g.parts p))
  ]

  same_history : (note (acts i a) v j).history ≡ j.history
  unfolding note
  same_history = end_of-mild a (v.sessions i).standing _ j.history m

  pub quiet-Ledger : Ledger (move (acts i a) v) (note (acts i a) v j)
  quiet-Ledger =
      history-Ledger (move (acts i a) v) (note (acts i a) v j) j.history same_history g.serial
        parts_after table_after
