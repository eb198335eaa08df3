-- ===== src/Parser/Words.antt =====
-- The words of a command.
use concurrent_transactional.Prelude.{leb, Bytes, false, ◌&&◌, is_empty, All, ◌≡◌}
use concurrent_transactional.Parser.{is_space}

abbrev pub NoSpace : Bytes → Type 0
NoSpace = All (λ c. is_space c ≡ false)

-- A token: not empty, and without a space.
pub record IsWord (w : Bytes) : Type 0 where
  pub some_byte : is_empty w ≡ false
  pub no_space : NoSpace w

-- No byte is a lower-case letter.
abbrev pub NoLower : Bytes → Type 0
NoLower = All (λ c. (leb b'a' c && leb c b'z') ≡ false)
