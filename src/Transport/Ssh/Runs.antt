-- ===== src/Transport/Ssh/Runs.antt =====
-- Runs of the commands for a remote side.
use cp.Common.{◌≡◌, refl, List, [], ◌∷◌, some, false, bytes_eq, codes}
use cp.Transport.Ssh.{
  shell_quote, deploy_command, directory_of, server_invocation, non_interactive, normalize_platform,
  is_windows,
}
use cp.Transport.Ssh.Shell.{Piece, word, lex, between, emit}
use cp.Transport.Ssh.Quoted.{bares, IsLiteral}
use cp.Transport.Ssh.Commands.{script, deploy_command-script, elevation, server_invocation-words}

quote_run : shell_quote (codes "~/a'b") ≡ codes "~/'a'\\''b'"
unfolding shell_quote
quote_run = refl

deploy_run :
    deploy_command (codes "linux") (codes "~/x y")
    ≡ codes "mkdir -p ~ && cat > ~/'x y'.tmp.$$ && mv ~/'x y'.tmp.$$ ~/'x y' && chmod +x ~/'x y'"
unfolding deploy_command
deploy_run = refl

-- The directory of a path right below the root is the empty text.
root_run : directory_of (codes "/cp2") ≡ []
unfolding directory_of
root_run = refl

linux-posix : is_windows (codes "linux") ≡ false
unfolding bytes_eq
linux-posix = refl

deploy_command-script_example :
    (d w : List Piece) × (lex between (deploy_command (codes "linux") (codes "~/x y"))
      ≡ some (script d w (word (bares (codes "cat")) ∷ [])))
    × IsLiteral (directory_of (codes "~/x y")) d
    × IsLiteral (codes "~/x y") w
deploy_command-script_example = deploy_command-script (codes "linux") (codes "~/x y") linux-posix

server_invocation-words_example :
    (w : List Piece) × (lex between
        (server_invocation (codes "/opt/$x") (codes "linux") (codes "-v") non_interactive)
      ≡ emit
          (elevation non_interactive)
          (emit (word w ∷ word (bares (codes "--server")) ∷ []) (lex between (codes "-v"))))
    × IsLiteral (codes "/opt/$x") w
server_invocation-words_example =
    server_invocation-words (codes "/opt/$x") (codes "linux") (codes "-v") non_interactive
      linux-posix

darwin_arm :
    normalize_platform (codes "Darwin") (codes "arm64") ≡ some (codes "macos", codes "aarch64")
unfolding normalize_platform bytes_eq
darwin_arm = refl
