-- ===== src/World/Races/Moves.antt =====
-- A run of events that has a result makes the moves of its steps, in the order of their ends.
use concurrent_transactional.Prelude.{
  ℕ, suc, ◌≤◌, ◌==◌, ==_iff, Option, none, some, List, [], ◌∷◌, ◌++◌, All, All-append, length,
  length-append, ◌≡◌, refl, arith, sym, subst, ap, ◌∙◌, if_both, Option-cases, inl, inr,
}
use concurrent_transactional.World.{Act, World, Move, acts, flushes, move, run_moves}
use concurrent_transactional.World.Serial.{Journal, note, run_noted}
use concurrent_transactional.World.Races.{
  Access, clash, Inside, Course, Instant, enters, leaves, flushing, meet, access_of, leave, enter,
  happen, run_events,
}

run_moves-append :
    (xs ys : List Move) (v : World) → run_moves (xs ++ ys) v ≡ run_moves ys (run_moves xs v)
unfolding run_moves
run_moves-append [] ys v = refl
run_moves-append (x ∷ xs) ys v = run_moves-append xs ys (move x v)

run_noted-append :
    (xs ys : List Move) (v : World) (j : Journal)
    → run_noted (xs ++ ys) v j ≡ run_noted ys (run_moves xs v) (run_noted xs v j)
unfolding run_noted run_moves
run_noted-append [] ys v j = refl
run_noted-append (x ∷ xs) ys v j = run_noted-append xs ys (move x v) (note x v j)

same_course : (a b : Course) → some a ≡ some b → a ≡ b
same_course a b e = cc e

-- Every move is of a kind.
module _ (Q : Move → Type 0) where
  abbrev pub Of : ℕ → Option Inside → Type 0
  Of i none = Unit
  Of i (some x) = Q (acts i x.doing)

  -- The steps that have begun are of the kind.
  abbrev pub Within : Course → Type 0
  Within c = (i : ℕ) → Of i (c.inside i)

  abbrev pub IsKind : Instant → Type 0
  IsKind (enters i a) = Q (acts i a)
  IsKind (leaves i) = Unit
  IsKind flushing = Q flushes

  -- The moves that lead from one point of a run to another.
  pub record Trace (c c' : Course) (n : ℕ) : Type 0 where
    pub moves : List Move
    pub world_after : c'.world ≡ run_moves moves c.world
    pub journal_after : c'.journal ≡ run_noted moves c.world c.journal
    pub kinds : All Q moves
    pub few : length moves ≤ n
    pub within : Within c'

  stay-Trace :
      (c c' : Course) → c'.world ≡ c.world → c'.journal ≡ c.journal → Within c' → Trace c c' 1
  unfolding run_moves run_noted
  stay-Trace c c' e f w = record {
    moves = [];
    world_after = e;
    journal_after = f;
    kinds = tt;
    few = omega arith;
    within = w;
  }

  move-Trace :
      (x : Move) (c c' : Course)
      → Q x
      → c'.world ≡ move x c.world
      → c'.journal ≡ note x c.world c.journal
      → Within c'
      → Trace c c' 1
  unfolding run_moves run_noted
  move-Trace x c c' q e f w = record {
    moves = x ∷ [];
    world_after = e;
    journal_after = f;
    kinds = (q, tt);
    few = omega arith;
    within = w;
  }

  meet-Of : (i : ℕ) (a : Access) (x : Option Inside) → Of i x → Of i (meet a x)
  meet-Of i a none h = h
  meet-Of i a (some x) h = h

  leave-Trace :
      (i : ℕ) (x : Inside) (c c' : Course)
      → Q (acts i x.doing)
      → Within c
      → leave i x c ≡ some c'
      → Trace c c' 1
  unfolding leave
  leave-Trace i x c c' q w =
      let touched = access_of x.doing (c.world.sessions i) c.world.shared in
      if_both (λ o. o ≡ some c' → Trace c c' 1) (clash touched x.met) _ _ (λ b e. absurd (cc e))
        (λ b e.
          subst (λ d. Trace c d 1) (same_course _ c' e)
            (move-Trace (acts i x.doing) c _ q refl refl (λ j.
              if_both (Of j) (i == j) _ _ (λ d. tt) (λ d. meet-Of j touched (c.inside j) (w j)))))

  enter-Within :
      (i : ℕ) (a : Act) (c : Course)
      → Q (acts i a)
      → Within c
      → (j : ℕ) → Of j (enter i a c.inside j)
  enter-Within i a c q w j =
      if_both (Of j) (i == j) _ _ (λ b. subst (λ k. Q (acts k a)) ((==_iff i j).0 b) q) (λ b. w j)

  happen-Trace :
      (e : Instant) (c c' : Course) → IsKind e → Within c → happen e c ≡ some c' → Trace c c' 1
  unfolding happen
  happen-Trace (enters i a) c c' q w f = entered (c.inside i) f
    where
      entered :
          (x : Option Inside)
          → (elim x [ none ↦ some (record c { inside = enter i a c.inside }) | some y ↦ some c ])
            ≡ some c'
          → Trace c c' 1
      entered none e =
          subst (λ d. Trace c d 1) (same_course _ c' e)
            (stay-Trace c (record c { inside = enter i a c.inside }) refl refl
              (enter-Within i a c q w))
      entered (some y) e =
          subst (λ d. Trace c d 1) (same_course c c' e) (stay-Trace c c refl refl w)
  happen-Trace (leaves i) c c' q w f = left (c.inside i) (w i) f
    where
      left :
          (x : Option Inside)
          → Of i x
          → (elim x [ none ↦ some c | some y ↦ leave i y c ]) ≡ some c'
          → Trace c c' 1
      left none o e = subst (λ d. Trace c d 1) (same_course c c' e) (stay-Trace c c refl refl w)
      left (some y) o e = leave-Trace i y c c' o w e
  happen-Trace flushing c c' q w e =
      subst (λ d. Trace c d 1) (same_course _ c' e) (move-Trace flushes c _ q refl refl w)

  merge-Trace : (c d e : Course) (n : ℕ) → Trace c d 1 → Trace d e n → Trace c e (suc n)
  merge-Trace c d e n p q = record {
    moves = p.moves ++ q.moves;
    world_after =
        q.world_after
        ∙ ap (run_moves q.moves) p.world_after
        ∙ sym (run_moves-append p.moves q.moves c.world);
    journal_after =
        q.journal_after
        ∙ ap (λ (x : World). run_noted q.moves x d.journal) p.world_after
        ∙ ap (run_noted q.moves (run_moves p.moves c.world)) p.journal_after
        ∙ sym (run_noted-append p.moves q.moves c.world c.journal);
    kinds = All-append Q p.moves q.moves p.kinds q.kinds;
    few = omega (arith, length-append p.moves q.moves, p.few, q.few);
    within = q.within;
  }

  pub run_events-Trace :
      (es : List Instant) (c c' : Course)
      → All IsKind es
      → Within c
      → run_events es c ≡ some c'
      → Trace c c' (length es)
  unfolding run_events run_moves run_noted
  run_events-Trace [] c c' q w e =
      subst (λ d. Trace c d 0) (same_course c c' e)
        (record {
          moves = [];
          world_after = refl;
          journal_after = refl;
          kinds = tt;
          few = omega arith;
          within = w;
        })
  run_events-Trace (x ∷ es) c c' (q, qs) w e = elim (Option-cases (happen x c)) [
    | inl f ↦ absurd (ground (arith, e, f))
    | inr (d, f) ↦
        let p = happen-Trace x c d q w f in
        merge-Trace c d c' (length es) p
          (run_events-Trace es d c' qs p.within (ground (arith, e, f)))
  ]
