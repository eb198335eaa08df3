-- ===== src/Parser.antt =====
-- src/protocol/parser.h and src/protocol/parser.cpp: a line of a client as a command.
-- `isspace` and `toupper` are those of the "C" locale.
pub mod Words
pub mod RoundTrip
use concurrent_transactional.Prelude.{
  ℕ, ◌-◌, ◌==◌, leb, Bytes, Bool, true, false, ◌&&◌, ◌||◌, Option, none, some, List, [], ◌∷◌, ◌++◌,
  map, is_empty, ◌>>=◌, if◌then◌else◌,
}

unfoldable pub is_space : ℕ → Bool
is_space c = (leb 9 c && leb c 13) || (c == 32)

unfoldable pub to_upper : ℕ → ℕ
to_upper c = if leb b'a' c && leb c b'z' then c - 32 else c

-- The first loop of `trim`.
unfoldable pub skip_spaces : Bytes → Bytes
skip_spaces [] = []
skip_spaces (c ∷ cs) = let rest = skip_spaces cs in if is_space c then rest else c ∷ cs

-- Without the spaces at the end.
unfoldable pub cut_spaces : Bytes → Bytes
cut_spaces [] = []
cut_spaces (c ∷ cs) =
    let rest = cut_spaces cs in if is_space c && is_empty rest then [] else c ∷ rest

-- The second loop goes back to the first character that is left, and never past it.
unfoldable pub cut_end : Bytes → Bytes
cut_end [] = []
cut_end (c ∷ cs) = c ∷ cut_spaces cs

-- `none` is the undefined `--end` on an empty text.
unfoldable pub trim : Bytes → Option Bytes
trim [] = none
trim (c ∷ cs) = some (cut_end (skip_spaces (c ∷ cs)))

-- Without a `;` at the end.
unfoldable pub cut_semicolon : Bytes → Bytes
cut_semicolon [] = []
cut_semicolon (c ∷ cs) =
    let rest = cut_semicolon cs in
    if is_empty cs then (if c == b';' then [] else c ∷ []) else c ∷ rest

-- `iss >> token` until it fails; the second argument is the token so far.
unfoldable pub tokens : Bytes → Bytes → List Bytes
tokens [] token = if is_empty token then [] else token ∷ []
tokens (c ∷ cs) token =
    let next = tokens cs [] in
    let more = tokens cs (token ++ c ∷ []) in
    if is_space c then (if is_empty token then next else token ∷ next) else more

pub record Command : Type 0 where
  pub name : Bytes
  pub args : List Bytes

unfoldable pub command_of : List Bytes → Command
command_of [] = record { name = []; args = [] }
command_of (token ∷ rest) = record { name = map to_upper token; args = rest }

unfoldable pub parse : Bytes → Option Command
parse line = do trimmed ← trim line; some (command_of (tokens (cut_semicolon trimmed) []))
