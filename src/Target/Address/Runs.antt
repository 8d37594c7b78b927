-- ===== src/Target/Address/Runs.antt =====
-- Runs of the parser of addresses.
use cp.Common.{◌≡◌, ◌↔◌, refl, [], ◌∷◌}
use cp.Target.Address.{RemoteTarget, parse, display, remote}
use cp.Target.Address.Verbatim.{IsPlain, Verbatim, starts_other}
use cp.Target.Address.Display.{parse-display_iff}

-- `u@h:a//b` is read as the absolute path `/b`.
doubled_run :
    parse (117 ∷ 64 ∷ 104 ∷ 58 ∷ 97 ∷ 47 ∷ 47 ∷ 98 ∷ [])
    ≡ remote (record { user = 117 ∷ []; host = 104 ∷ []; port = 22; path = 47 ∷ 98 ∷ [] })
unfolding parse
doubled_run = refl

-- `u@[::1]:a/b`
bracket_run :
    parse (117 ∷ 64 ∷ 91 ∷ 58 ∷ 58 ∷ 49 ∷ 93 ∷ 58 ∷ 97 ∷ 47 ∷ 98 ∷ [])
    ≡ remote
        (record { user = 117 ∷ []; host = 58 ∷ 58 ∷ 49 ∷ []; port = 22; path = 97 ∷ 47 ∷ 98 ∷ [] })
unfolding parse
bracket_run = refl

-- `u@h:a/b`
abbrev plain : RemoteTarget
plain = record { user = 117 ∷ []; host = 104 ∷ []; port = 22; path = 97 ∷ 47 ∷ 98 ∷ [] }

plain-IsPlain : IsPlain plain
unfolding starts_other
plain-IsPlain = record {
  user_at = refl;
  user_separator = refl;
  host_separator = refl;
  host_colon = refl;
  host_start = refl;
  default_port = refl;
}

parse-display_iff_example : (parse (display plain) ≡ remote plain) ↔ Verbatim (plain.path)
parse-display_iff_example = parse-display_iff plain plain-IsPlain
