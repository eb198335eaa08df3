-- ===== src/Session/Run/Answers.antt =====
-- The answers to a client depend on its lines alone, and the loop meets them all.
use concurrent_transactional.Prelude.{
  ℕ, zero, suc, ◌+◌, ◌<◌, Bytes, Option, none, some, List, [], ◌∷◌, ◌++◌, ◌>>=◌, length, is_empty,
  ◌≡◌, refl, arith, sym, ap, subst, ◌∙◌, Option-cases, Bool-cases, inl, inr,
}
use concurrent_transactional.Server.{Server}
use concurrent_transactional.Session.Reports.{get_greeting}
use concurrent_transactional.Session.{Reply, responds, closes, exits}
use concurrent_transactional.Session.Lines.{
  get_next_command_line, split_line, strip_return, first_line, concat, line_and_rest,
  get_next_command_line-first_line,
}
use concurrent_transactional.Session.Run.{
  Round, Finished, go_on, on_line, run_loop, run, run_lines, cut_lines, write_line,
}
use concurrent_transactional.Session.Run.Cuts.{cut_lines-none, cut_lines-some}

go_on-same :
    (f g : Server → Option Finished) (r : Option (Server × Reply))
    → ((s : Server) → f s ≡ g s)
    → go_on f r ≡ go_on g r
unfolding go_on
go_on-same f g none h = refl
go_on-same f g (some (s, responds response)) h =
    ap (λ x. do f ← x; some (write_line response f)) (h s)
go_on-same f g (some (s, closes)) h = refl
go_on-same f g (some (s, exits)) h = refl

on_line-same :
    (rounds : ℕ → Round) (session : ℕ) (f g : ℕ → Server → Option Finished) (line : Bytes) (n : ℕ)
    (s : Server)
    → ((m : ℕ) (t : Server) → f m t ≡ g m t)
    → on_line rounds session f line n s ≡ on_line rounds session g line n s
unfolding on_line
on_line-same rounds session f g line n s h = elim (Bool-cases (is_empty line)) [
  | inl b ↦ rw (on_line, b) (h n s)
  | inr b ↦ rw (on_line, b) (go_on-same (f (n + 1)) (g (n + 1)) _ (h (n + 1)))
]

-- The first line, where there is one.
first_line-none : (text : Bytes) → first_line text ≡ none → split_line text ≡ none
unfolding first_line
first_line-none text h = elim (Option-cases (split_line text)) [
  | inl e ↦ e
  | inr ((l, r), e) ↦ absurd (ground (arith, e, h))
]

some_inj : (x y : Bytes × Bytes) → some x ≡ some y → x ≡ y
some_inj x y h = cc h

first_line-some :
    (text line rest : Bytes)
    → first_line text ≡ some (line, rest)
    → (cut_lines [] text ≡ line ∷ cut_lines [] rest) × (length rest < length text)
unfolding first_line
first_line-some text line rest h = elim (Option-cases (split_line text)) [
  | inl e ↦ absurd (ground (arith, e, h))
  | inr ((l, r), e) ↦
      let cut = cut_lines-some [] text l r e in
      let same = some_inj (strip_return l, r) (line, rest) (ground (arith, e, h)) in
      subst
        (λ (x : Bytes × Bytes).
          (cut_lines [] text ≡ x.0 ∷ cut_lines [] x.1) × (length x.1 < length text))
        same (cut.lines, cut.shorter)
]

run_loop-lines :
    (fuel : ℕ) (rounds : ℕ → Round) (session : ℕ) (inbuf : Bytes) (chunks : List Bytes) (n : ℕ)
    (s : Server)
    → length (inbuf ++ concat chunks) < fuel
    → run_loop fuel rounds session inbuf chunks n s
      ≡ run_lines rounds session (cut_lines [] (inbuf ++ concat chunks)) n s
unfolding run_loop run_lines
run_loop-lines zero rounds session inbuf chunks n s h = absurd (omega (arith, h))
run_loop-lines (suc fuel) rounds session inbuf chunks n s h =
    let text = inbuf ++ concat chunks in
    let next = get_next_command_line-first_line inbuf chunks in
    elim (Option-cases (get_next_command_line inbuf chunks)) [
      | inl e ↦
          rw
            (
              run_loop,
              e,
              cut_lines-none [] text (first_line-none text (sym next ∙ ap line_and_rest e)),
              run_lines,
            )
            refl
      | inr (i, e) ↦
          let (cut, less) =
            first_line-some text i.line (i.inbuf ++ concat i.chunks)
              (sym next ∙ ap line_and_rest e) in
          rw (run_loop, e, cut, run_lines)
            (on_line-same rounds session _ _ i.line n s (λ m t.
              run_loop-lines fuel rounds session i.inbuf i.chunks m t (omega (arith, h, less))))
    ]

-- What a connection comes to. The bytes sent to a client and the server that its connection leaves are those of
-- its lines, one command for each that is not empty, in order, until a command closes the
-- connection, ends the server or does not return, or the lines are at their end. The way in which
-- its bytes arrive in chunks does not matter, bytes after the last newline are never answered, and
-- the loop comes to its end whatever the client sends, where every command returns.
pub run-lines :
    (rounds : ℕ → Round) (session : ℕ) (chunks : List Bytes) (s : Server)
    → run rounds session chunks s ≡ (do
      f ← run_lines rounds session (cut_lines [] (concat chunks)) 0 s
      some (write_line (get_greeting session) f))
unfolding run
run-lines rounds session chunks s =
    ap (λ x. do f ← x; some (write_line (get_greeting session) f))
      (run_loop-lines (suc (length (concat chunks))) rounds session [] chunks 0 s (omega arith))
