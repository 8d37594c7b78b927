-- ===== src/Target/Address/Display.antt =====
-- An address that is displayed and read again.
use cp.Common.{◌≡◌, ◌↔◌, sym, ap, ◌∙◌, inl, inr, false, ◌∷◌, ◌++◌, Bytes}
use cp.Target.Address.{
  RemoteTarget, Location, local, remote, colon, slash, display, contains, parse, parse_remote,
}
use cp.Target.Address.Split.{or-false, split_once-cases}
use cp.Target.Address.Verbatim.{
  IsPlain, Verbatim, heard, heard_iff, parse_remote-slash, parse_remote-word, parse-display,
}

path_of : Location → Bytes
path_of (local path) = path
path_of (remote t) = t.path

module _ (t : RemoteTarget) (h : IsPlain t) where
  host_slash : contains slash t.host ≡ false
  host_slash = (or-false _ _ h.host_separator).0

  parse_remote-around :
      (s p : Bytes)
      → contains slash s ≡ false
      → t.path ≡ s ++ (slash ∷ p)
      → parse_remote (t.host ++ (colon ∷ t.path)) ≡ (t.host, heard s p)
  parse_remote-around s p none_in around =
      ap (λ path. parse_remote (t.host ++ (colon ∷ path))) around
      ∙ parse_remote-slash t.host s p h.host_colon h.host_start host_slash none_in

  parse-display_whole :
      parse_remote (t.host ++ (colon ∷ t.path)) ≡ (t.host, t.path) → parse (display t) ≡ remote t
  parse-display_whole e =
      parse-display t t.path h e
      ∙ ap (λ n. remote (record { user = t.user; host = t.host; port = n; path = t.path }))
          (sym h.default_port)

  parse-display_kept : Verbatim t.path → parse (display t) ≡ remote t
  parse-display_kept (inl none_in) =
      parse-display_whole
        (parse_remote-word t.host t.path h.host_colon h.host_start host_slash none_in)
  parse-display_kept (inr (s, p, none_in, around, kept)) = parse-display_whole (
      parse_remote-around s p none_in around
      ∙ ap (λ path. (t.host, path)) ((heard_iff s p).1 kept ∙ sym around))

  parse-display_Verbatim : parse (display t) ≡ remote t → Verbatim t.path
  unfolding path_of
  parse-display_Verbatim e = elim (split_once-cases slash t.path) [
    | inl none_in ↦ inl none_in
    | inr (s, p, none_in, around) ↦
        let read = parse-display t (heard s p) h (parse_remote-around s p none_in around) in
        inr (s, p, none_in, around, (heard_iff s p).0 (ap path_of (sym read ∙ e) ∙ around))
  ]

-- A remote target with a user and a host without separators and the default port is displayed as an
-- address that is read as the same target if and only if its path has no slash, starts with one, or has
-- before its first slash a part that does not end with a colon and after it a part that is not empty
-- and starts with no slash: `a/` loses its slash, `a//b` and `a:/b` turn into the absolute path `/b`.
pub parse-display_iff :
    (t : RemoteTarget) → IsPlain t → (parse (display t) ≡ remote t) ↔ Verbatim t.path
parse-display_iff t h = (parse-display_Verbatim t h, parse-display_kept t h)
