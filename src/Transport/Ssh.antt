-- ===== src/Transport/Ssh.antt =====
-- src/transport/ssh.rs: the commands that are run on a remote side, and what is read of its platform.
-- A text is its bytes; the size in `deploy_serve_command` is the text of its decimal digits.
pub mod Shell
pub mod Quoted
pub mod Commands
pub mod Platforms
mod Runs
use cp.Common.{
  ℕ, ◌+◌, List, [], ◌∷◌, ◌++◌, Option, none, some, Bool, true, false, ◌&&◌, ◌||◌, ◌==◌, leb,
  if◌then◌else◌, Bytes, bytes_eq, codes, concat, strip_prefix, before_last_slash,
}

pub data Sudo : Type 0 where
  off : Sudo
  non_interactive : Sudo
  password : Sudo

-- `replace('\'', "'\\''")`
pub escape : Bytes → Bytes
escape [] = []
escape (c ∷ text) = if c == 39 then 39 ∷ 92 ∷ 39 ∷ 39 ∷ escape text else c ∷ escape text

-- A text in single quotes
abbrev pub in_quotes : Bytes → Bytes
in_quotes text = 39 ∷ (escape text ++ (39 ∷ []))

unfoldable pub shell_quote : Bytes → Bytes
unfolding escape
shell_quote path = elim (strip_prefix 126 path) [
  | none ↦ in_quotes path
  | some [] ↦ 126 ∷ []
  | some (c ∷ rest) ↦ if c == 47 then 126 ∷ 47 ∷ in_quotes rest else in_quotes path
]

abbrev pub is_windows : Bytes → Bool
is_windows os = bytes_eq os (codes "windows")

-- `{quoted} --server {server_args}`
abbrev pub server_base : Bytes → Bytes → Bytes
server_base quoted [] = quoted ++ codes " --server"
server_base quoted (c ∷ args) = quoted ++ (codes " --server " ++ (c ∷ args))

unfoldable pub server_invocation : Bytes → Bytes → Bytes → Sudo → Bytes
unfolding shell_quote bytes_eq
server_invocation remote_path remote_os server_args sudo =
    let quoted_path = if is_windows remote_os then remote_path else shell_quote remote_path in
    let base = server_base quoted_path server_args in
    elim sudo [
      | off ↦ base
      | non_interactive ↦ codes "sudo -n " ++ base
      | password ↦ codes "sudo -S " ++ base
    ]

abbrev pub compound_sep : Bytes
compound_sep = codes "__CP2_PROBE_SEP__"

unfoldable pub preamble_command : Bytes → Bytes → Bytes
unfolding shell_quote
preamble_command remote_path server_args =
    codes "uname -s -m 2>/dev/null; printf '\\n"
    ++ (compound_sep ++ (codes "\\n'; exec " ++ server_base (shell_quote remote_path) server_args))

-- `&remote_path[..i]`, or `.`
unfoldable pub directory_of : Bytes → Bytes
unfolding before_last_slash
directory_of path = elim (before_last_slash path) [ some front ↦ front | none ↦ codes "." ]

unfoldable pub windows_push_command : Bytes → Bytes
windows_push_command remote_path =
    codes
      "cmd /c powershell -NoProfile -Command \"New-Item -Force -ItemType Directory (Split-Path -Parent '"
    ++ (remote_path
        ++ (codes
              "') | Out-Null; $t = $env:TEMP\\cp2-$PID.b64; $input | Out-File -Encoding ascii -NoNewline $t; certutil -decode -f $t '"
            ++ (remote_path ++ codes "'; del $t\"")))

-- `mkdir -p {dir} && {fill} > {tmp} && mv {tmp} {quoted} && chmod +x {quoted}{after}`
abbrev pub install : Bytes → Bytes → Bytes → Bytes → Bytes
install dir quoted fill after =
    let tmp = quoted ++ codes ".tmp.$$" in
    concat (
      codes "mkdir -p "
      ∷ dir
      ∷ codes " && "
      ∷ fill
      ∷ codes " > "
      ∷ tmp
      ∷ codes " && mv "
      ∷ tmp
      ∷ codes " "
      ∷ quoted
      ∷ codes " && chmod +x "
      ∷ quoted
      ∷ after
      ∷ [])

unfoldable pub deploy_command : Bytes → Bytes → Bytes
unfolding shell_quote directory_of windows_push_command bytes_eq
deploy_command remote_os remote_path =
    if is_windows remote_os
    then windows_push_command remote_path
    else install (shell_quote (directory_of remote_path)) (shell_quote remote_path) (codes "cat") []

unfoldable pub deploy_serve_command : Bytes → Bytes → Bytes → Bytes
unfolding shell_quote directory_of
deploy_serve_command remote_path server_args size =
    let quoted = shell_quote remote_path in
    install (shell_quote (directory_of remote_path)) quoted (codes "head -c " ++ size)
      (codes " && exec " ++ server_base quoted server_args)

-- `str::to_ascii_lowercase`
abbrev pub to_ascii_lowercase : Bytes → Bytes
to_ascii_lowercase [] = []
to_ascii_lowercase (c ∷ text) =
    (if leb 65 c && leb c 90 then c + 32 else c) ∷ to_ascii_lowercase text

unfoldable pub normalize_os : Bytes → Option Bytes
unfolding bytes_eq
normalize_os os =
    if bytes_eq os (codes "linux")
    then some (codes "linux")
    else if bytes_eq os (codes "darwin")
    then some (codes "macos")
    else if bytes_eq os (codes "windows")
    then some (codes "windows")
    else none

unfoldable pub normalize_arch : Bytes → Option Bytes
unfolding bytes_eq
normalize_arch arch =
    if bytes_eq arch (codes "x86_64") || bytes_eq arch (codes "amd64")
    then some (codes "x86_64")
    else if bytes_eq arch (codes "aarch64") || bytes_eq arch (codes "arm64")
    then some (codes "aarch64")
    else none

unfoldable pub normalize_platform : Bytes → Bytes → Option (Bytes × Bytes)
unfolding normalize_os normalize_arch
normalize_platform os arch = elim (normalize_os (to_ascii_lowercase os)) [
  | none ↦ none
  | some o ↦ elim (normalize_arch (to_ascii_lowercase arch)) [ none ↦ none | some a ↦ some (o, a) ]
]

abbrev pub is_platform : Bytes → Bytes → Bytes → Bytes → Bool
is_platform os arch o a = bytes_eq os o && bytes_eq arch a

unfoldable pub remote_triple : Bytes → Bytes → Option Bytes
unfolding bytes_eq
remote_triple os arch =
    if is_platform os arch (codes "linux") (codes "x86_64")
    then some (codes "x86_64-unknown-linux-musl")
    else if is_platform os arch (codes "linux") (codes "aarch64")
    then some (codes "aarch64-unknown-linux-musl")
    else if is_platform os arch (codes "macos") (codes "x86_64")
    then some (codes "x86_64-apple-darwin")
    else if is_platform os arch (codes "macos") (codes "aarch64")
    then some (codes "aarch64-apple-darwin")
    else if is_platform os arch (codes "windows") (codes "x86_64")
    then some (codes "x86_64-pc-windows-msvc")
    else if is_platform os arch (codes "windows") (codes "aarch64")
    then some (codes "aarch64-pc-windows-msvc")
    else none

unfoldable pub sidecar_candidates : Bytes → Bytes → List Bytes
unfolding remote_triple bytes_eq
sidecar_candidates os arch = elim (remote_triple os arch) [
  | none ↦ []
  | some triple ↦
      if bytes_eq triple (codes "x86_64-pc-windows-msvc")
      then codes "x86_64-pc-windows-msvc" ∷ codes "x86_64-pc-windows-gnu" ∷ []
      else if bytes_eq triple (codes "aarch64-pc-windows-msvc")
      then codes "aarch64-pc-windows-msvc" ∷ codes "aarch64-pc-windows-gnu" ∷ []
      else triple ∷ []
]
