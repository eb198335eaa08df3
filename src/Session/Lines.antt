-- ===== src/Session/Lines.antt =====
-- src/server/connection_handler.cpp, `getNextCommandLine`: lines from what the socket delivers. A
-- chunk is what one call of `recv` gives, which is not empty; after the last the client is gone.
use concurrent_transactional.Prelude.{
  ◌==◌, Bytes, Option, none, some, List, [], ◌∷◌, ◌++◌, ◌>>=◌, is_empty, if◌then◌else◌, ◌≡◌, refl,
  arith, append-nil, append_assoc, Option-cases, inl, inr, ap, ◌∙◌,
}

-- `inbuf_.find('\n')`, with what stands before and behind it.
unfoldable pub split_line : Bytes → Option (Bytes × Bytes)
split_line [] = none
split_line (c ∷ cs) =
    if c == 10 then some ([], cs) else do (line, rest) ← split_line cs; some (c ∷ line, rest)

-- Without a `\r` at the end.
unfoldable pub strip_return : Bytes → Bytes
strip_return [] = []
strip_return (c ∷ cs) =
    let rest = strip_return cs in if is_empty cs then (if c == 13 then [] else c ∷ []) else c ∷ rest

pub record Input : Type 0 where
  pub line : Bytes
  pub inbuf : Bytes
  pub chunks : List Bytes

-- `none` is `false`: the client is gone.
unfoldable pub get_next_command_line : Bytes → List Bytes → Option Input
get_next_command_line inbuf [] = elim (split_line inbuf) [
  | none ↦ none
  | some (line, rest) ↦ some (record { line = strip_return line; inbuf = rest; chunks = [] })
]
get_next_command_line inbuf (c ∷ cs) = elim (split_line inbuf) [
  | none ↦ get_next_command_line (inbuf ++ c) cs
  | some (line, rest) ↦ some (record { line = strip_return line; inbuf = rest; chunks = c ∷ cs })
]

abbrev pub concat : List Bytes → Bytes
concat [] = []
concat (c ∷ cs) = c ++ concat cs

-- The line and all the bytes that are still to be read after it.
abbrev pub line_and_rest : Option Input → Option (Bytes × Bytes)
line_and_rest none = none
line_and_rest (some i) = some (i.line, i.inbuf ++ concat i.chunks)

-- The first line of a text, and what follows it.
unfoldable pub first_line : Bytes → Option (Bytes × Bytes)
first_line text = do (line, rest) ← split_line text; some (strip_return line, rest)

split_line-append :
    (a b line rest : Bytes)
    → split_line a ≡ some (line, rest)
    → split_line (a ++ b) ≡ some (line, rest ++ b)
unfolding split_line
split_line-append [] b line rest h = absurd (cc h)
split_line-append (c ∷ a) b line rest h = elim (Option-cases (split_line a)) [
  | inl e ↦ ground (arith, e)
  | inr ((l, r), e) ↦ ground (arith, e, split_line-append a b l r e)
]

-- How the bytes of the client are cut into chunks does not matter: the next line, and all that is
-- left to be read after it, are those of the buffer and all chunks as one text; and there is no
-- line if that text has none.
pub get_next_command_line-first_line :
    (inbuf : Bytes) (chunks : List Bytes)
    → line_and_rest (get_next_command_line inbuf chunks) ≡ first_line (inbuf ++ concat chunks)
unfolding get_next_command_line first_line
get_next_command_line-first_line inbuf [] = elim (Option-cases (split_line inbuf)) [
  | inl e ↦ rw (append-nil inbuf, e, get_next_command_line) refl
  | inr ((line, rest), e) ↦
      rw (append-nil inbuf, e, get_next_command_line)
        (ap (λ x. some (strip_return line, x)) (append-nil rest))
]
get_next_command_line-first_line inbuf (c ∷ cs) = elim (Option-cases (split_line inbuf)) [
  | inl e ↦
      rw (e, get_next_command_line)
        (get_next_command_line-first_line (inbuf ++ c) cs
          ∙ ap first_line (append_assoc inbuf c (concat cs)))
  | inr ((line, rest), e) ↦
      rw (e, get_next_command_line, split_line-append inbuf (c ++ concat cs) line rest e) refl
]
