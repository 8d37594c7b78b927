-- ===== src/Transport/Ssh/Quoted.antt =====
-- What the shell reads of a text that `shell_quote` of src/transport/ssh.rs quotes.
use cp.Common.{
  ℕ, ◌≡◌, refl, sym, ap, ◌∙◌, ◌⊎◌, inl, inr, List, [], ◌∷◌, ◌++◌, append-nil, append_assoc, Bool,
  true, false, not, ◌||◌, ◌==◌, ==_iff, Bool-cases, if◌then◌else◌, Bytes, All, arith,
}
use cp.Transport.Ssh.{escape, shell_quote}
use cp.Transport.Ssh.Shell.{
  Piece, bare, quoted, lex, between, inside, in_single, step, is_blank, is_operator, is_refused,
}

abbrev pub bares : Bytes → List Piece
bares [] = []
bares (c ∷ text) = bare c ∷ bares text

abbrev pub quoteds : Bytes → List Piece
quoteds [] = []
quoteds (c ∷ text) = quoted c ∷ quoteds text

-- The characters of a word
pub text_of : List Piece → Bytes
text_of [] = []
text_of (bare c ∷ w) = c ∷ text_of w
text_of (quoted c ∷ w) = c ∷ text_of w

-- The characters of a word that the shell may expand
pub bare_of : List Piece → Bytes
bare_of [] = []
bare_of (bare c ∷ w) = c ∷ bare_of w
bare_of (quoted c ∷ w) = bare_of w

-- A word that is the given text, of which nothing but a leading `~` or `~/` is bare
pub record IsLiteral (text : Bytes) (w : List Piece) : Type 0 where
  pub same_text : text_of w ≡ text
  pub no_more_bare : (bare_of w ≡ []) ⊎ ((bare_of w ≡ 126 ∷ []) ⊎ (bare_of w ≡ 126 ∷ 47 ∷ []))

-- After a leading `~`
abbrev pub tilde_word : Bytes → List Piece
tilde_word [] = bare 126 ∷ []
tilde_word (c ∷ rest) =
    if c == 47 then bare 126 ∷ bare 47 ∷ quoteds rest else quoteds (126 ∷ c ∷ rest)

abbrev pub quoted_word : Bytes → List Piece
quoted_word [] = []
quoted_word (x ∷ path) = if x == 126 then tilde_word path else quoteds (x ∷ path)

text_of-quoteds : (text : Bytes) → text_of (quoteds text) ≡ text
unfolding text_of
text_of-quoteds [] = refl
text_of-quoteds (c ∷ text) = ap (◌∷◌ c) (text_of-quoteds text)

bare_of-quoteds : (text : Bytes) → bare_of (quoteds text) ≡ []
unfolding bare_of
bare_of-quoteds [] = refl
bare_of-quoteds (c ∷ text) = bare_of-quoteds text

quoteds-IsLiteral : (text : Bytes) → IsLiteral text (quoteds text)
quoteds-IsLiteral text = record {
  same_text = text_of-quoteds text;
  no_more_bare = inl (bare_of-quoteds text);
}

tilde_word-IsLiteral : (path : Bytes) → IsLiteral (126 ∷ path) (tilde_word path)
unfolding text_of bare_of
tilde_word-IsLiteral [] = record { same_text = refl; no_more_bare = inr (inl refl) }
tilde_word-IsLiteral (c ∷ rest) = elim (Bool-cases (c == 47)) [
  | inl slash ↦
      rw (slash, (==_iff c 47).0 slash)
        (record {
          same_text = ap (λ (t : Bytes). 126 ∷ 47 ∷ t) (text_of-quoteds rest);
          no_more_bare = inr (inr (ap (λ (t : Bytes). 126 ∷ 47 ∷ t) (bare_of-quoteds rest)));
        })
  | inr other ↦ rw other (quoteds-IsLiteral (126 ∷ c ∷ rest))
]

-- A quoted path is one word with the path's characters, of which a leading `~` or `~/` alone is bare.
pub quoted_word-IsLiteral : (path : Bytes) → IsLiteral path (quoted_word path)
quoted_word-IsLiteral [] = quoteds-IsLiteral []
quoted_word-IsLiteral (x ∷ path) = elim (Bool-cases (x == 126)) [
  | inl tilde ↦ rw (tilde, (==_iff x 126).0 tilde) (tilde_word-IsLiteral path)
  | inr other ↦ rw other (quoteds-IsLiteral (x ∷ path))
]

append-snoc : (w : List Piece) (p : Piece) (ps : List Piece) → (w ++ (p ∷ [])) ++ ps ≡ w ++ (p ∷ ps)
append-snoc w p ps = append_assoc w (p ∷ []) ps

lex-in_single :
    (w : List Piece) (text rest : Bytes)
    → lex (in_single w) (escape text ++ (39 ∷ rest)) ≡ lex (inside (w ++ quoteds text)) rest
unfolding lex escape
lex-in_single w [] rest = ap (λ v. lex (inside v) rest) (sym (append-nil w))
lex-in_single w (c ∷ text) rest = elim (Bool-cases (c == 39)) [
  | inl quote ↦
      rw (quote, (==_iff c 39).0 quote)
        (lex-in_single (w ++ (quoted 39 ∷ [])) text rest
          ∙ ap (λ v. lex (inside v) rest) (append-snoc w (quoted 39) (quoteds text)))
  | inr other ↦ rw other (
      rw other (
        lex-in_single (w ++ (quoted c ∷ [])) text rest
        ∙ ap (λ v. lex (inside v) rest) (append-snoc w (quoted c) (quoteds text))))
]

lex-in_quotes :
    (w : List Piece) (text rest : Bytes)
    → lex (in_single w) ((escape text ++ (39 ∷ [])) ++ rest) ≡ lex (inside (w ++ quoteds text)) rest
lex-in_quotes w text rest =
    ap (lex (in_single w)) (append_assoc (escape text) (39 ∷ []) rest) ∙ lex-in_single w text rest

lex-tilde :
    (path rest : Bytes)
    → lex between (shell_quote (126 ∷ path) ++ rest) ≡ lex (inside (tilde_word path)) rest
unfolding lex shell_quote
lex-tilde [] rest = refl
lex-tilde (c ∷ path) rest = elim (Bool-cases (c == 47)) [
  | inl slash ↦ rw slash (lex-in_quotes (bare 126 ∷ bare 47 ∷ []) path rest)
  | inr other ↦ rw other (lex-in_quotes [] (126 ∷ c ∷ path) rest)
]

-- The shell reads a quoted text that stands between blanks as the one word, and goes on inside it.
pub lex-shell_quote :
    (path rest : Bytes)
    → lex between (shell_quote path ++ rest) ≡ lex (inside (quoted_word path)) rest
lex-shell_quote [] rest = unfold lex shell_quote escape in refl
lex-shell_quote (x ∷ path) rest = elim (Bool-cases (x == 126)) [
  | inl tilde ↦ rw (tilde, (==_iff x 126).0 tilde) (lex-tilde path rest)
  | inr other ↦ rw other (lex-plain other)
]
  where
    lex-plain :
        (x == 126) ≡ false
        → lex between (shell_quote (x ∷ path) ++ rest) ≡ lex (inside (quoteds (x ∷ path))) rest
    lex-plain other = unfold lex shell_quote in rw (other, ◌++◌) (lex-in_quotes [] (x ∷ path) rest)

-- Neither a separator nor a quote
abbrev pub is_plain : ℕ → Bool
is_plain c = not (is_blank c || is_operator c || c == 39 || c == 92 || is_refused c)

plain_step :
    (w : List Piece) (c : ℕ)
    → is_plain c ≡ true
    → step (inside w) c ≡ (inside (w ++ (bare c ∷ [])), [])
plain_step w c p = ground arith

pub lex-bares :
    (w : List Piece) (text rest : Bytes)
    → All (λ c. is_plain c ≡ true) text
    → lex (inside w) (text ++ rest) ≡ lex (inside (w ++ bares text)) rest
unfolding lex
lex-bares w [] rest h = ap (λ v. lex (inside v) rest) (sym (append-nil w))
lex-bares w (c ∷ text) rest (p, h) = rw (plain_step w c p) (
    lex-bares (w ++ (bare c ∷ [])) text rest h
    ∙ ap (λ v. lex (inside v) rest) (append-snoc w (bare c) (bares text)))
