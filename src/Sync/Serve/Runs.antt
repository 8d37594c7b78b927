-- ===== src/Sync/Serve/Runs.antt =====
-- Runs of a server's path resolution.
use cp.Common.{◌≡◌, ◌↔◌, refl, [], ◌∷◌, some, false, bytes_eq, All, codes}
use cp.Platform.Result.{ok}
use cp.Sync.Serve.{Outside, resolve_serve_path, expand_remote_glob, resolve_pull_roots}
use cp.Sync.Serve.Contained.{Served, resolve_serve_path-Served}
use cp.Sync.Serve.Listed.{Plain, resolve_pull_roots_iff}
use cp.Sync.Serve.Dropped.{expand_remote_glob-stem_dropped}

-- A file system with nothing in it, and a library that gives back what it is asked for
abbrev bare_io : Outside
bare_io = record {
  open_root = λ root. some root;
  soft_canonicalize = λ path. some path;
  exists = λ path. false;
  glob = λ pattern. some (pattern ∷ []);
  sort = λ paths. paths;
}

serve_run : resolve_serve_path bare_io (codes "/r") (codes "a/b") ≡ ok (codes "/r/a/b")
unfolding resolve_serve_path bytes_eq
serve_run = refl

resolve_serve_path-Served_example : Served bare_io (codes "/r") (codes "a/b") (codes "/r/a/b")
resolve_serve_path-Served_example =
    resolve_serve_path-Served bare_io (codes "/r") (codes "a/b") (codes "/r/a/b") serve_run

resolve_pull_roots_iff_example :
    (resolve_pull_roots bare_io (codes "/r") (codes "/a" ∷ codes "/b" ∷ [])
      ≡ ok (codes "/", codes "/a" ∷ codes "/b" ∷ []))
    ↔ (All Plain (codes "/a" ∷ codes "/b" ∷ [])
        × (codes "/" ≡ codes "/")
        × (codes "/a" ∷ codes "/b" ∷ [] ≡ codes "/a" ∷ codes "/b" ∷ []))
resolve_pull_roots_iff_example =
    resolve_pull_roots_iff bare_io (codes "/r") (codes "/a") (codes "/b") [] (codes "/")
      (codes "/a" ∷ codes "/b" ∷ [])

-- `d/ab*` asks for `d/*`.
dropped_run :
    expand_remote_glob bare_io (codes "/r") (codes "d/ab*")
    ≡ ok (some (codes "/r/d", codes "/r/d/*" ∷ []))
unfolding expand_remote_glob bytes_eq
dropped_run = refl

literal_run : resolve_serve_path bare_io (codes "/r") (codes "d/ab*") ≡ ok (codes "/r/d/ab*")
unfolding resolve_serve_path bytes_eq
literal_run = refl

star_run : resolve_serve_path bare_io (codes "/r") (codes "d/*") ≡ ok (codes "/r/d/*")
unfolding resolve_serve_path bytes_eq
star_run = refl

expand_remote_glob-stem_dropped_example :
    expand_remote_glob bare_io (codes "/r") (codes "d/ab*")
    ≡ expand_remote_glob bare_io (codes "/r") (codes "d/*")
expand_remote_glob-stem_dropped_example =
    expand_remote_glob-stem_dropped bare_io (codes "/r") (codes "d") 42 [] refl refl (codes "ab")
      (codes "/r/d/ab*") (codes "/r/d/*") refl refl literal_run refl star_run refl
