-- ===== src/Session/Run/Cuts.antt =====
-- The lines of a text, one by one.
use concurrent_transactional.Prelude.{
  ℕ, ◌<◌, ◌==◌, Bytes, true, false, none, some, [], ◌∷◌, ◌++◌, length, ◌≡◌, refl, arith, sym, ap,
  subst, append-nil, ◌∙◌, Option-cases, Bool-cases, inl, inr, append_assoc,
}
use concurrent_transactional.Session.Lines.{split_line, strip_return}
use concurrent_transactional.Session.Run.{cut_lines}

cut_lines-newline :
    (begun : Bytes) (c : ℕ) (text : Bytes)
    → (c == 10) ≡ true
    → cut_lines begun (c ∷ text) ≡ strip_return begun ∷ cut_lines [] text
unfolding cut_lines strip_return
cut_lines-newline begun c text b = rw (cut_lines, b) refl

cut_lines-other :
    (begun : Bytes) (c : ℕ) (text : Bytes)
    → (c == 10) ≡ false
    → cut_lines begun (c ∷ text) ≡ cut_lines (begun ++ (c ∷ [])) text
unfolding cut_lines
cut_lines-other begun c text b = rw (cut_lines, b) refl

pub cut_lines-none : (begun text : Bytes) → split_line text ≡ none → cut_lines begun text ≡ []
unfolding cut_lines split_line
cut_lines-none begun [] h = refl
cut_lines-none begun (c ∷ text) h = elim (Option-cases (split_line text)) [
  | inr ((l, r), e) ↦ absurd (ground (arith, e, h))
  | inl e ↦ elim (Bool-cases (c == 10)) [
    | inl b ↦ absurd (ground (arith, b, h))
    | inr b ↦ cut_lines-other begun c text b ∙ cut_lines-none (begun ++ (c ∷ [])) text e
  ]
]

-- The first line of a text, its bytes and what is left.
pub record Splits (begun text line rest : Bytes) : Type 0 where
  pub lines : cut_lines begun text ≡ strip_return (begun ++ line) ∷ cut_lines [] rest
  pub shorter : length rest < length text

split_line-newline :
    (c : ℕ) (text : Bytes) → (c == 10) ≡ true → split_line (c ∷ text) ≡ some ([], text)
unfolding split_line
split_line-newline c text b = rw (split_line, b) refl

split_line-other :
    (c : ℕ) (text l r : Bytes)
    → (c == 10) ≡ false
    → split_line text ≡ some (l, r)
    → split_line (c ∷ text) ≡ some (c ∷ l, r)
unfolding split_line
split_line-other c text l r b e = rw (split_line, b, e) refl

cut_here :
    (begun : Bytes) (c : ℕ) (text : Bytes) → (c == 10) ≡ true → Splits begun (c ∷ text) [] text
cut_here begun c text b = record {
  lines =
      cut_lines-newline begun c text b
      ∙ ap (λ x. strip_return x ∷ cut_lines [] text) (sym (append-nil begun));
  shorter = omega arith;
}

cut_later :
    (begun : Bytes) (c : ℕ) (text l r : Bytes)
    → (c == 10) ≡ false
    → Splits (begun ++ (c ∷ [])) text l r
    → Splits begun (c ∷ text) (c ∷ l) r
cut_later begun c text l r b h = record {
  lines =
      cut_lines-other begun c text b
      ∙ h.lines
      ∙ ap (λ x. strip_return x ∷ cut_lines [] r) (append_assoc begun (c ∷ []) l);
  shorter = omega (arith, h.shorter);
}

same_cut :
    {begun text a b line rest : Bytes}
    → split_line text ≡ some (a, b)
    → split_line text ≡ some (line, rest)
    → Splits begun text a b
    → Splits begun text line rest
same_cut {begun} {text} {a} {b} {line} {rest} e h =
    subst (λ (x : Bytes × Bytes). Splits begun text x.0 x.1) (cc (e, h))

pub cut_lines-some :
    (begun text line rest : Bytes)
    → split_line text ≡ some (line, rest)
    → Splits begun text line rest
unfolding split_line
cut_lines-some begun [] line rest h = absurd (cc h)
cut_lines-some begun (c ∷ text) line rest h = elim (Bool-cases (c == 10)) [
  | inl b ↦ same_cut (split_line-newline c text b) h (cut_here begun c text b)
  | inr b ↦ elim (Option-cases (split_line text)) [
    | inl e ↦ absurd (ground (arith, b, e, h))
    | inr ((l, r), e) ↦
        same_cut (split_line-other c text l r b e) h
          (cut_later begun c text l r b (cut_lines-some (begun ++ (c ∷ [])) text l r e))
  ]
]
