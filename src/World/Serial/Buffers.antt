-- ===== src/World/Serial/Buffers.antt =====
-- A buffer that is applied in part: the rest of the loop leaves at each key of the buffer what the
-- whole buffer leaves there.
use concurrent_transactional.Prelude.{
  Bytes, bytes_eq, bytes_eq_refl, Bool, Option, none, some, [], ◌∷◌, ◌≡◌, refl, sym, ◌∙◌,
  Bool-cases, inl, inr,
}
use concurrent_transactional.Prelude.Map.{Map, lookup, bytes_order}
use concurrent_transactional.Prelude.Sorted.{Sorted}
use concurrent_transactional.Store.{Store, get}
use concurrent_transactional.Transaction.{apply_pending}
use concurrent_transactional.Transaction.Commit.{get-apply_pending, outcome}

pub record Halfway (rest pending : Map Bytes (Bytes × Bool)) (t : Store) : Type 0 where
  pub in_order : Sorted rest
  pub inside : (k : Bytes) → lookup k pending ≡ none → lookup k rest ≡ none
  pub result :
      (k : Bytes) (entry : Bytes × Bool)
      → lookup k pending ≡ some entry
      → get k (apply_pending rest t) ≡ outcome (some entry) none

pub outcome-some :
    (entry : Bytes × Bool) (x : Option Bytes) → outcome (some entry) x ≡ outcome (some entry) none
unfolding outcome
outcome-some (value, is_deleted) x = refl

pub start-Halfway : (p : Map Bytes (Bytes × Bool)) (t : Store) → Sorted p → Halfway p p t
start-Halfway p t h = record {
  in_order = h;
  inside = λ k e. e;
  result = λ k entry e. rw (get-apply_pending k p t h, e) (outcome-some entry (get k t));
}

-- Changes at other keys do not matter.
pub other-Halfway :
    (rest p : Map Bytes (Bytes × Bool)) (t t' : Store)
    → ((k : Bytes) (entry : Bytes × Bool) → lookup k p ≡ some entry → get k t' ≡ get k t)
    → Halfway rest p t
    → Halfway rest p t'
other-Halfway rest p t t' same h = record {
  in_order = h.in_order;
  inside = h.inside;
  result = λ k entry e.
      get-apply_pending k rest t' h.in_order
      ∙ rw (same k entry e) (sym (get-apply_pending k rest t h.in_order) ∙ h.result k entry e);
}

lookup-later :
    (k : Bytes) (x : Bytes × (Bytes × Bool)) (rest : Map Bytes (Bytes × Bool))
    → lookup k (x ∷ rest) ≡ none
    → lookup k rest ≡ none
unfolding lookup
lookup-later k (key, entry) rest = elim (Bool-cases (bytes_eq key k)) [
  | inl b ↦ rw b (λ e. cc e)
  | inr b ↦ rw b (λ e. e)
]

-- One round of the loop.
pub next-Halfway :
    (x : Bytes × (Bytes × Bool)) (rest p : Map Bytes (Bytes × Bool)) (t : Store)
    → Halfway (x ∷ rest) p t
    → Halfway rest p (apply_pending (x ∷ []) t)
unfolding apply_pending
next-Halfway (key, (value, is_deleted)) rest p t h = record {
  in_order = (h.in_order).1;
  inside = λ k e. lookup-later k (key, (value, is_deleted)) rest (h.inside k e);
  result = h.result;
}

-- At the end, the table has what the buffer leaves.
pub done-Halfway :
    (p : Map Bytes (Bytes × Bool)) (t : Store) (k : Bytes) (entry : Bytes × Bool)
    → Halfway [] p t
    → lookup k p ≡ some entry
    → get k t ≡ outcome (some entry) none
unfolding apply_pending
done-Halfway p t k entry h e = h.result k entry e

lookup-first :
    (key : Bytes) (entry : Bytes × Bool) (rest : Map Bytes (Bytes × Bool))
    → lookup key ((key, entry) ∷ rest) ≡ some entry
unfolding lookup
lookup-first key entry rest = rw (bytes_eq_refl key) refl

-- What is still to be applied is of the buffer.
pub first_inside :
    (key : Bytes) (entry : Bytes × Bool) (rest p : Map Bytes (Bytes × Bool)) (t : Store)
    → Halfway ((key, entry) ∷ rest) p t
    → lookup key p ≡ none
    → ⊥
first_inside key entry rest p t h e = cc (lookup-first key entry rest, h.inside key e)
