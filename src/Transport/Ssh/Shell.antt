-- ===== src/Transport/Ssh/Shell.antt =====
-- How a POSIX shell takes a command apart into words and operators. A word is its characters, each with
-- whether it is quoted: only a bare character is expanded. Double quotes, backquotes and comments are
-- refused, and so is a quote that is left open; a line end counts as an operator.
use cp.Common.{ℕ, List, [], ◌∷◌, ◌++◌, Option, none, some, Bool, ◌||◌, ◌==◌, if◌then◌else◌, Bytes}

pub data Piece : Type 0 where
  bare : ℕ → Piece
  quoted : ℕ → Piece

pub data Token : Type 0 where
  word : List Piece → Token
  operator : ℕ → Token

pub data Mode : Type 0 where
  between : Mode
  inside : List Piece → Mode
  in_single : List Piece → Mode
  escaped : List Piece → Mode
  refused : Mode

-- `|`, `&`, `;`, `<`, `>`, `(`, `)` and a line end
abbrev pub is_operator : ℕ → Bool
is_operator c =
    c == 124 || c == 38 || c == 59 || c == 60 || c == 62 || c == 40 || c == 41 || c == 10

abbrev pub is_blank : ℕ → Bool
is_blank c = c == 32 || c == 9

-- `"`, a backquote and `#`
abbrev pub is_refused : ℕ → Bool
is_refused c = c == 34 || c == 96 || c == 35

-- A character outside quotes that is no separator
abbrev pub bare_step : List Piece → ℕ → Mode
bare_step w c =
    if c == 39
    then in_single w
    else if c == 92
    then escaped w
    else if is_refused c
    then refused
    else inside (w ++ (bare c ∷ []))

abbrev pub step : Mode → ℕ → Mode × List Token
step between c =
    if is_blank c
    then (between, [])
    else if is_operator c
    then (between, operator c ∷ [])
    else (bare_step [] c, [])
step (inside w) c =
    if is_blank c
    then (between, word w ∷ [])
    else if is_operator c
    then (between, word w ∷ operator c ∷ [])
    else (bare_step w c, [])
step (in_single w) c = (if c == 39 then inside w else in_single (w ++ (quoted c ∷ [])), [])
step (escaped w) c = (inside (w ++ (quoted c ∷ [])), [])
step refused c = (refused, [])

abbrev pub emit : List Token → Option (List Token) → Option (List Token)
emit [] o = o
emit (t ∷ ts) none = none
emit (t ∷ ts) (some us) = some ((t ∷ ts) ++ us)

unfoldable pub lex : Mode → Bytes → Option (List Token)
lex between [] = some []
lex (inside w) [] = some (word w ∷ [])
lex (in_single w) [] = none
lex (escaped w) [] = none
lex refused [] = none
lex between (c ∷ text) = emit ((step between c).1) (lex ((step between c).0) text)
lex (inside w) (c ∷ text) = emit ((step (inside w) c).1) (lex ((step (inside w) c).0) text)
lex (in_single w) (c ∷ text) = emit ((step (in_single w) c).1) (lex ((step (in_single w) c).0) text)
lex (escaped w) (c ∷ text) = emit ((step (escaped w) c).1) (lex ((step (escaped w) c).0) text)
lex refused (c ∷ text) = emit ((step refused c).1) (lex ((step refused c).0) text)
