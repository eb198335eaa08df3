-- ===== src/World/Serial/Parts.antt =====
-- What the journal says of one session, and the steps of the session and of others that keep it so.
use concurrent_transactional.Prelude.{
  Bytes, Bool, true, some, List, [], ◌∷◌, ◌++◌, All, All-append, ◌≡◌, refl, sym, subst, ◌∙◌, ap,
  if◌then◌else◌, if_both, inl, inr,
}
use concurrent_transactional.Prelude.Map.{Map, lookup, bytes_order}
use concurrent_transactional.Prelude.Sorted.{Sorted}
use concurrent_transactional.Store.{Store, get}
use concurrent_transactional.Transaction.{Shared, Manager}
use concurrent_transactional.World.{applying, Session}
use concurrent_transactional.World.Orderly.{is_running}
use concurrent_transactional.World.Held.{HasLocked, pending_of}
use concurrent_transactional.World.Shapes.{Mild}
use concurrent_transactional.World.Serial.{Answered, answer_from}
use concurrent_transactional.World.Serial.Buffers.{Halfway, start-Halfway, other-Halfway}

-- A read that still holds: the transaction has the key, and the committed table has the value.
abbrev pub Holding : Manager → Store → Answered → Type 0
Holding m base p = (answer_from (get p.0 base) ≡ p.1) × HasLocked p.0 m

pub record Part (s : Session) (seen : List Answered) (base t : Store) : Type 0 where
  pub reads_hold : is_running s ≡ true → All (Holding s.manager base) seen
  pub in_order : Sorted (pending_of s)
  pub halfway :
      (rest : Map Bytes (Bytes × Bool)) → s.standing ≡ applying rest → Halfway rest (pending_of s) t

Holding-All :
    (m n : Manager) (base base' : Store) (seen : List Answered)
    → ((k : Bytes) → HasLocked k m → HasLocked k n)
    → ((k : Bytes) → HasLocked k m → get k base' ≡ get k base)
    → All (Holding m base) seen
    → All (Holding n base') seen
Holding-All m n base base' [] f g h = tt
Holding-All m n base base' ((k, v) ∷ seen) f g ((e, l), h) =
    ((ap answer_from (g k l) ∙ e, f k l), Holding-All m n base base' seen f g h)

-- The reads of a transaction that goes on, and its new read.
pub kept_reads :
    (s : Session) (x : Session) (seen found : List Answered) (base : Store)
    → (is_running s ≡ true → All (Holding s.manager base) seen)
    → (is_running s ≡ true
        → is_running x ≡ true
        → (k : Bytes) → HasLocked k s.manager
        → HasLocked k x.manager)
    → is_running x ≡ true
    → All (Holding x.manager base) found
    → All (Holding x.manager base) (found ++ (if is_running s then seen else []))
kept_reads s x seen found base h f r g = All-append (Holding x.manager base) found _ g (
    if_both (All (Holding x.manager base)) (is_running s) _ _
      (λ a. Holding-All s.manager x.manager base base seen (f a r) (λ k l. refl) (h a)) (λ a. tt))

-- A step of the session that applies nothing.
pub Mild-Part :
    (s : Session) (w : Shared) (x : Session × Shared) (seen found : List Answered) (base : Store)
    → Mild s w x
    → (is_running x.0 ≡ true → All (Holding x.0.manager base) found)
    → Part s seen base w.store
    → Part x.0 (found ++ (if is_running s then seen else [])) base x.1.store
Mild-Part s w x seen found base m g h = record {
  reads_hold = λ r. kept_reads s x.0 seen found base h.reads_hold m.keeps r (g r);
  in_order = m.sorted h.in_order;
  halfway = λ rest e. rw (m.same_store) (elim (m.enters rest e) [
    | inl f ↦
        subst (λ p. Halfway p (pending_of x.0) w.store) (sym f)
          (start-Halfway (pending_of x.0) w.store (m.sorted h.in_order))
    | inr f ↦
        subst (λ (y : Session). Halfway rest (pending_of y) w.store) (sym f)
          (h.halfway rest (ap (λ (y : Session). y.standing) (sym f) ∙ e))
  ]);
}

-- A step of another: it changes neither what the session has read nor what it has written.
pub bystander-Part :
    (s : Session) (seen : List Answered) (base base' t t' : Store)
    → (is_running s ≡ true → (k : Bytes) → HasLocked k s.manager → get k base' ≡ get k base)
    → ((rest : Map Bytes (Bytes × Bool))
        → s.standing ≡ applying rest
        → (k : Bytes) (entry : Bytes × Bool) → lookup k (pending_of s) ≡ some entry
        → get k t' ≡ get k t)
    → Part s seen base t
    → Part s seen base' t'
bystander-Part s seen base base' t t' f g h = record {
  reads_hold =
      λ r. Holding-All s.manager s.manager base base' seen (λ k l. l) (f r) (h.reads_hold r);
  in_order = h.in_order;
  halfway = λ rest e. other-Halfway rest (pending_of s) t t' (g rest e) (h.halfway rest e);
}
