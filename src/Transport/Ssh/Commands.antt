-- ===== src/Transport/Ssh/Commands.antt =====
-- What the remote shell makes of the deploy and server commands of src/transport/ssh.rs.
use cp.Common.{
  if◌then◌else◌, ◌≡◌, refl, ap, ◌∙◌, List, [], ◌∷◌, ◌++◌, append_assoc, Option, none, some, Bool,
  false, Bytes, codes,
}
use cp.Transport.Ssh.{
  shell_quote, server_base, is_windows, directory_of, deploy_command, server_invocation, Sudo, off,
  non_interactive, password,
}
use cp.Transport.Ssh.Shell.{Piece, Token, word, operator, lex, between, inside, emit}
use cp.Transport.Ssh.Quoted.{
  bares, IsLiteral, quoted_word, quoted_word-IsLiteral, lex-shell_quote, lex-bares,
}

-- `mkdir -p dir && fill > tmp && mv tmp path && chmod +x path`, and what follows the path
abbrev pub script : List Piece → List Piece → List Token → List Token
script d w fill =
    let tmp = w ++ bares (codes ".tmp.$$") in
    word (bares (codes "mkdir"))
    ∷ word (bares (codes "-p"))
    ∷ word d
    ∷ operator 38
    ∷ operator 38
    ∷ (fill
        ++ (operator 62
            ∷ word tmp
            ∷ operator 38
            ∷ operator 38
            ∷ word (bares (codes "mv"))
            ∷ word tmp
            ∷ word w
            ∷ operator 38
            ∷ operator 38
            ∷ word (bares (codes "chmod"))
            ∷ word (bares (codes "+x"))
            ∷ word w
            ∷ []))

lex-suffix :
    (w : List Piece) (rest : Bytes)
    → lex (inside w) (codes ".tmp.$$" ++ rest) ≡ lex (inside (w ++ bares (codes ".tmp.$$"))) rest
lex-suffix w rest =
    lex-bares w (codes ".tmp.$$") rest (refl, (refl, (refl, (refl, (refl, (refl, (refl, tt)))))))

-- A quoted path with the suffix of the temporary name
lex-temporary :
    (path rest : Bytes)
    → lex between ((shell_quote path ++ codes ".tmp.$$") ++ rest)
      ≡ lex (inside (quoted_word path ++ bares (codes ".tmp.$$"))) rest
lex-temporary path rest =
    ap (lex between) (append_assoc (shell_quote path) (codes ".tmp.$$") rest)
    ∙ lex-shell_quote path (codes ".tmp.$$" ++ rest)
    ∙ lex-suffix (quoted_word path) rest

fuse :
    (a b c d e : Token) (o : Option (List Token))
    → emit (a ∷ []) (emit (b ∷ []) (emit (c ∷ []) (emit (d ∷ []) (emit (e ∷ []) o))))
      ≡ emit (a ∷ b ∷ c ∷ d ∷ e ∷ []) o
fuse a b c d e none = refl
fuse a b c d e (some ts) = refl

fuse_pair :
    (a b : Token) (o : Option (List Token)) → emit (a ∷ []) (emit (b ∷ []) o) ≡ emit (a ∷ b ∷ []) o
fuse_pair a b none = refl
fuse_pair a b (some ts) = refl

module _ (path after : Bytes) where
  abbrev chmod_text : Bytes
  chmod_text = codes " && chmod +x " ++ (shell_quote path ++ after)

  abbrev mv_text : Bytes
  mv_text =
      codes " && mv "
      ++ ((shell_quote path ++ codes ".tmp.$$") ++ (codes " " ++ (shell_quote path ++ chmod_text)))

  abbrev tmp : List Piece
  tmp = quoted_word path ++ bares (codes ".tmp.$$")

  lex-chmod :
      (w : List Piece)
      → lex (inside w) chmod_text
        ≡ emit
            (word w
              ∷ operator 38
              ∷ operator 38
              ∷ word (bares (codes "chmod"))
              ∷ word (bares (codes "+x"))
              ∷ [])
            (lex (inside (quoted_word path)) after)
  unfolding lex
  lex-chmod w = rw (lex-shell_quote path after) (fuse _ _ _ _ _ _)

  lex-mv :
      (w : List Piece)
      → lex (inside w) mv_text
        ≡ emit
            (word w ∷ operator 38 ∷ operator 38 ∷ word (bares (codes "mv")) ∷ word tmp ∷ [])
            (lex (inside (quoted_word path)) chmod_text)
  unfolding lex
  lex-mv w =
      rw
        (
          lex-temporary path (codes " " ++ (shell_quote path ++ chmod_text)),
          lex-shell_quote path chmod_text,
        )
        (fuse _ _ _ _ _ _)

lex-deploy_command :
    (os path : Bytes)
    → is_windows os ≡ false
    → lex between (deploy_command os path)
      ≡ some (
          script
            (quoted_word (directory_of path))
            (quoted_word path)
            (word (bares (codes "cat")) ∷ []))
unfolding lex deploy_command
lex-deploy_command os path h =
    rw
      (
        h,
        lex-shell_quote (directory_of path)
            (codes " && cat > " ++ ((shell_quote path ++ codes ".tmp.$$") ++ mv_text path [])),
        lex-temporary path (mv_text path []),
        lex-mv path [] _,
        lex-chmod path [] _,
      )
      refl

-- On a POSIX side the deploy command is, whatever the path, the four commands `mkdir -p dir`, `cat > tmp`,
-- `mv tmp path` and `chmod +x path` chained by `&&`: the path and its directory are one word each, with
-- their own characters, of which a leading `~` or `~/` alone is left to expansion.
pub deploy_command-script :
    (os path : Bytes)
    → is_windows os ≡ false
    → (d w : List Piece) × (lex between (deploy_command os path)
        ≡ some (script d w (word (bares (codes "cat")) ∷ [])))
      × IsLiteral (directory_of path) d
      × IsLiteral path w
deploy_command-script os path h = (
  quoted_word (directory_of path),
  quoted_word path,
  lex-deploy_command os path h,
  quoted_word-IsLiteral (directory_of path),
  quoted_word-IsLiteral path,
)

-- The words before the path of the server
abbrev pub elevation : Sudo → List Token
elevation off = []
elevation non_interactive = word (bares (codes "sudo")) ∷ word (bares (codes "-n")) ∷ []
elevation password = word (bares (codes "sudo")) ∷ word (bares (codes "-S")) ∷ []

lex-server_base :
    (path args : Bytes)
    → lex between (server_base (shell_quote path) args)
      ≡ emit (word (quoted_word path) ∷ word (bares (codes "--server")) ∷ []) (lex between args)
unfolding lex
lex-server_base path [] = rw (lex-shell_quote path (codes " --server")) refl
lex-server_base path (c ∷ args) =
    rw (lex-shell_quote path (codes " --server " ++ (c ∷ args)))
      (fuse_pair _ _ (lex between (c ∷ args)))

lex-server_invocation :
    (path os args : Bytes) (sudo : Sudo)
    → is_windows os ≡ false
    → lex between (server_invocation path os args sudo)
      ≡ emit
          (elevation sudo)
          (emit (word (quoted_word path) ∷ word (bares (codes "--server")) ∷ []) (lex between args))
unfolding server_invocation lex
lex-server_invocation path os args off h = rw h (lex-server_base path args)
lex-server_invocation path os args non_interactive h =
    ap
      (λ (b : Bool).
        lex between (codes "sudo -n " ++ server_base (if b then path else shell_quote path) args))
      h
    ∙ rw (lex-server_base path args) (fuse_pair _ _ _)
lex-server_invocation path os args password h =
    ap
      (λ (b : Bool).
        lex between (codes "sudo -S " ++ server_base (if b then path else shell_quote path) args))
      h
    ∙ rw (lex-server_base path args) (fuse_pair _ _ _)

-- On a POSIX side the server is started, under each way to use sudo, by the words of that way, then the
-- path as one word with its own characters, of which a leading `~` or `~/` alone is left to expansion,
-- then `--server` and what the arguments are read as.
pub server_invocation-words :
    (path os args : Bytes) (sudo : Sudo)
    → is_windows os ≡ false
    → (w : List Piece) × (lex between (server_invocation path os args sudo)
        ≡ emit
            (elevation sudo)
            (emit (word w ∷ word (bares (codes "--server")) ∷ []) (lex between args)))
      × IsLiteral path w
server_invocation-words path os args sudo h =
    (quoted_word path, lex-server_invocation path os args sudo h, quoted_word-IsLiteral path)
