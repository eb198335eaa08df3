-- ===== src/Parser/RoundTrip.antt =====
-- A command that is written out as a line is parsed back.
use concurrent_transactional.Prelude.{
  ℕ, Bytes, false, some, List, [], ◌∷◌, ◌++◌, map, is_empty, append_nonempty, append_assoc,
  append-nil, All, ◌≡◌, refl, arith, ap, sym, ◌∙◌,
}
use concurrent_transactional.Parser.{
  is_space, to_upper, skip_spaces, cut_spaces, cut_end, trim, cut_semicolon, tokens, Command,
  command_of, parse,
}
use concurrent_transactional.Parser.Words.{NoSpace, NoLower, IsWord}

-- The words with one space between them.
unfoldable pub join : Bytes → List Bytes → Bytes
join w [] = w
join w (v ∷ ws) = w ++ b' ' ∷ join v ws

-- A line as a client writes it, with `;` at its end.
unfoldable pub print : Command → Bytes
print cmd = join cmd.name cmd.args ++ b';' ∷ []

tokens-NoSpace :
    (w rest token : Bytes) → NoSpace w → tokens (w ++ rest) token ≡ tokens rest (token ++ w)
unfolding tokens
tokens-NoSpace [] rest token h = rw (append-nil token)
tokens-NoSpace (c ∷ w) rest token h =
    rw h.0 (
      tokens-NoSpace w rest (token ++ c ∷ []) h.1
      ∙ ap (tokens rest) (append_assoc token (c ∷ []) w))

tokens_space : (w rest : Bytes) → is_empty w ≡ false → tokens (b' ' ∷ rest) w ≡ w ∷ tokens rest []
unfolding tokens is_space
tokens_space w rest h = rw h

tokens-join :
    (w : Bytes) (ws : List Bytes) → IsWord w → All IsWord ws → tokens (join w ws) [] ≡ w ∷ ws
unfolding join
tokens-join w [] h hs =
    ap (λ t. tokens t []) (sym (append-nil w))
    ∙ (tokens-NoSpace w [] [] h.no_space ∙ unfold tokens in rw h.some_byte)
tokens-join w (v ∷ ws) h hs =
    tokens-NoSpace w (b' ' ∷ join v ws) [] h.no_space
    ∙ (tokens_space w (join v ws) h.some_byte ∙ ap (λ t. w ∷ t) (tokens-join v ws hs.0 hs.1))

cut_spaces-append :
    (text : Bytes) (c : ℕ) → is_space c ≡ false → cut_spaces (text ++ c ∷ []) ≡ text ++ c ∷ []
unfolding cut_spaces
cut_spaces-append [] c h = rw h
cut_spaces-append (d ∷ text) c h =
    rw (cut_spaces-append text c h, append_nonempty text c) (ground arith)

cut_semicolon-append : (text : Bytes) → cut_semicolon (text ++ b';' ∷ []) ≡ text
unfolding cut_semicolon
cut_semicolon-append [] = refl
cut_semicolon-append (c ∷ text) = rw (cut_semicolon-append text, append_nonempty text b';')

to_upper-NoLower : (w : Bytes) → NoLower w → map to_upper w ≡ w
unfolding to_upper
to_upper-NoLower [] h = refl
to_upper-NoLower (c ∷ w) h = rw h.0 (ap (λ t. c ∷ t) (to_upper-NoLower w h.1))

trim-print :
    (c : ℕ) (text : Bytes)
    → is_space c ≡ false
    → trim (c ∷ (text ++ b';' ∷ [])) ≡ some (c ∷ (text ++ b';' ∷ []))
unfolding trim skip_spaces cut_end
trim-print c text h = rw (h, cut_spaces-append text b';' (unfold is_space in refl))

join_first : (c : ℕ) (w : Bytes) (ws : List Bytes) → (t : Bytes) × (join (c ∷ w) ws ≡ c ∷ t)
unfolding join
join_first c w [] = (w, refl)
join_first c w (v ∷ ws) = (w ++ b' ' ∷ join v ws, refl)

parse_line :
    (name : Bytes) (args : List Bytes)
    → IsWord name
    → NoLower name
    → All IsWord args
    → parse (join name args ++ b';' ∷ []) ≡ some (record { name = name; args = args })
unfolding parse command_of
parse_line [] args h upper hs = cc h.some_byte
parse_line (c ∷ w) args h upper hs =
    let (text, e) = join_first c w args in
    rw (
      e,
      trim-print c text h.no_space.0,
      cut_semicolon-append (c ∷ text),
      ← e,
      tokens-join (c ∷ w) args h hs,
      to_upper-NoLower (c ∷ w) upper,
    )

-- Every command whose name is a word without lower-case letters, and whose arguments are words, is
-- what the parser makes of its line.
pub parse-print :
    (cmd : Command)
    → IsWord cmd.name
    → NoLower cmd.name
    → All IsWord cmd.args
    → parse (print cmd) ≡ some cmd
unfolding print
parse-print cmd h upper hs = parse_line cmd.name cmd.args h upper hs
