-- ===== src/Target/Address.antt =====
-- src/target/address.rs: a source or a destination, as it is written and as it is read.
pub mod Split
pub mod Verbatim
pub mod Display
mod Runs
use cp.Common.{
  ℕ, List, [], ◌∷◌, ◌++◌, Option, none, some, Bool, true, false, ◌&&◌, ◌||◌, ◌==◌, if◌then◌else◌,
  Bytes, any, strip_prefix,
}
use cp.Filter.{starts_with}

pub record RemoteTarget : Type 0 where
  pub user : Bytes
  pub host : Bytes
  pub port : ℕ
  pub path : Bytes

pub data Location : Type 0 where
  local : Bytes → Location
  remote : RemoteTarget → Location

-- `@`, `:`, `/`, `\`, `[` and `]`
abbrev pub at : ℕ
at = 64

abbrev pub colon : ℕ
colon = 58

abbrev pub slash : ℕ
slash = 47

abbrev pub backslash : ℕ
backslash = 92

abbrev pub open_bracket : ℕ
open_bracket = 91

abbrev pub close_bracket : ℕ
close_bracket = 93

-- `fmt` of a remote target: the port is not written.
unfoldable pub display : RemoteTarget → Bytes
display t = t.user ++ (at ∷ t.host ++ (colon ∷ t.path))

abbrev pub before : ℕ → Option (Bytes × Bytes) → Option (Bytes × Bytes)
before c none = none
before c (some (s, rest)) = some (c ∷ s, rest)

-- `str::split_once` of one character
pub split_once : ℕ → Bytes → Option (Bytes × Bytes)
split_once c [] = none
split_once c (x ∷ text) =
    let rest = split_once c text in if x == c then some ([], text) else before x rest

abbrev pub contains : ℕ → Bytes → Bool
contains c = any (λ x. x == c)

-- `str::ends_with` of one character
pub ends_with : ℕ → Bytes → Bool
ends_with c [] = false
ends_with c (x ∷ []) = x == c
ends_with c (x ∷ y ∷ text) = ends_with c (y ∷ text)

unfoldable pub join_suffix : Bytes → Bytes → Bytes
join_suffix path [] = path
join_suffix [] (s ∷ suffix) = s ∷ suffix
join_suffix (c ∷ path) (s ∷ suffix) =
    if c == slash then c ∷ path else (s ∷ suffix) ++ (slash ∷ c ∷ path)

-- The part after the brackets of an IPv6 literal
abbrev pub bracket_path : Bytes → Bytes → Bytes
bracket_path path tail = elim (strip_prefix colon tail) [
  | some suffix ↦ join_suffix path suffix
  | none ↦ path
]

-- The host and the path of what comes before the first slash and the path that follows it
pub parse_host : Bytes → Bytes → Bytes × Bytes
unfolding split_once join_suffix starts_with
parse_host host_port path = elim (strip_prefix open_bracket host_port) [
  | some rest_brackets ↦ elim (split_once close_bracket rest_brackets) [
    | some q ↦ (q.0, bracket_path path (q.1))
    | none ↦ (host_port, path)
  ]
  | none ↦
      if starts_with host_port (colon ∷ colon ∷ [])
      then (host_port, path)
      else elim (split_once colon host_port) [
        | some q ↦ (q.0, join_suffix path (q.1))
        | none ↦ (host_port, path)
      ]
]

unfoldable pub parse_remote : Bytes → Bytes × Bytes
unfolding split_once ends_with parse_host
parse_remote rest = elim (split_once slash rest) [
  | some q ↦ parse_host (q.0) (if ends_with colon (q.0) then slash ∷ q.1 else q.1)
  | none ↦ parse_host rest []
]

abbrev pub has_separator : Bytes → Bool
has_separator s = contains slash s || contains backslash s

unfoldable pub parse : Bytes → Location
unfolding split_once parse_remote
parse s = elim (split_once at s) [
  | some q ↦
      if has_separator (q.0)
      then local s
      else (let target = parse_remote (q.1) in
          if has_separator (target.0)
          then local s
          else remote (record { user = q.0; host = target.0; port = 22; path = target.1 }))
  | none ↦ local s
]
