-- ===== src/Config/Local.antt =====
-- What holds of the endpoints of a loaded configuration.
use ius.Base.{
  ◌≡◌, refl, sym, subst, Option, none, some, inl, inr, Option-cases, ok, Outcome-cases, arith,
}
use ius.Base.Strings.{Text}
use ius.Transport.{Endpoint, unix, named_pipe, tcp, parse}
use ius.Transport.Endpoints.{IsAccepted, parse-IsAccepted}
use ius.Config.Types.{ConfigFile, DaemonArgs, DaemonConfig, default_config, default_endpoint}
use ius.Config.Merge.{merge_file, merge_args}
use ius.Config.Load.{
  Outside, parse_endpoint, set_endpoint, resolve_endpoint, resolve_upstream, finalize_endpoint,
  load_file, from_sources, config_file_path,
}

-- The socket path is that of a unix endpoint.
abbrev pub Mirrors : {Addr : Type 0} → Endpoint Addr → Text → Type 0
Mirrors (unix p) path = path ≡ p
Mirrors (named_pipe n) path = Unit
Mirrors (tcp a) path = Unit

module _ {Addr : Type 0} (outside : Outside Addr) where
  -- An endpoint that this host alone can reach, mirrored in the socket path where it is a unix one.
  pub record IsLocal (c : DaemonConfig Addr) : Type 0 where
    pub endpoint : IsAccepted outside.parse_addr outside.is_loopback c.endpoint
    pub mirror : Mirrors c.endpoint c.socket_path

  -- Before the resolution: a socket path that differs from the default has set the endpoint's text.
  record IsStaged (c : DaemonConfig Addr) : Type 0 where
    pub endpoint : c.endpoint ≡ unix default_endpoint
    pub path : (c.endpoint_raw ≡ none) → c.socket_path ≡ default_endpoint

  merge_file-IsStaged :
      (c : DaemonConfig Addr) (file : ConfigFile) → IsStaged c → IsStaged (merge_file c file)
  unfolding merge_file
  merge_file-IsStaged c file s = record {
    endpoint = s.endpoint;
    path = λ h. ground (arith, s.path);
  }

  merge_args-IsStaged :
      (c : DaemonConfig Addr) (args : DaemonArgs) → IsStaged c → IsStaged (merge_args c args)
  unfolding merge_args
  merge_args-IsStaged c args s = record {
    endpoint = s.endpoint;
    path = λ h. ground (arith, s.path);
  }

  parse_endpoint-IsAccepted :
      (raw : Text) (e : Endpoint Addr)
      → parse_endpoint outside raw ≡ ok e
      → IsAccepted outside.parse_addr outside.is_loopback e
  unfolding parse_endpoint
  parse_endpoint-IsAccepted raw e h =
      elim (Outcome-cases (parse outside.parse_addr outside.is_loopback raw)) [
        | inl (e', good) ↦
            parse-IsAccepted outside.parse_addr outside.is_loopback raw e
              (ground (arith, good, rw (good, parse_endpoint) at h))
        | inr (_, bad) ↦ ground arith
      ]

  set_endpoint-IsLocal :
      (c : DaemonConfig Addr) (e : Endpoint Addr)
      → IsAccepted outside.parse_addr outside.is_loopback e
      → IsLocal (set_endpoint outside c e)
  set_endpoint-IsLocal c (unix p) a = record { endpoint = tt; mirror = refl }
  set_endpoint-IsLocal c (named_pipe n) a = record { endpoint = a; mirror = tt }
  set_endpoint-IsLocal c (tcp b) a = record { endpoint = a; mirror = tt }

  staged-IsLocal : (c : DaemonConfig Addr) → IsStaged c → c.endpoint_raw ≡ none → IsLocal c
  staged-IsLocal c s h = record {
    endpoint = subst (λ e. IsAccepted outside.parse_addr outside.is_loopback e) (sym s.endpoint) tt;
    mirror = subst (λ e. Mirrors e c.socket_path) (sym s.endpoint) (s.path h);
  }

  resolve_endpoint-IsLocal :
      (c c' : DaemonConfig Addr) (raw : Option Text)
      → IsStaged c
      → c.endpoint_raw ≡ raw
      → resolve_endpoint outside c raw ≡ ok c'
      → IsLocal c'
  unfolding resolve_endpoint
  resolve_endpoint-IsLocal c c' none s r h =
      let same : c ≡ c' = ground arith in subst (λ x. IsLocal x) same (staged-IsLocal c s r)
  resolve_endpoint-IsLocal c c' (some raw) s r h =
      elim (Outcome-cases (parse_endpoint outside raw)) [
        | inl (e, good) ↦
            let same : set_endpoint outside c e ≡ c' =
              ground (arith, rw (good, resolve_endpoint) at h) in
            subst (λ x. IsLocal x) same
              (set_endpoint-IsLocal c e (parse_endpoint-IsAccepted raw e good))
        | inr (_, bad) ↦ ground arith
      ]

  resolve_upstream-IsLocal :
      (c c' : DaemonConfig Addr) (raw : Option Text)
      → IsLocal c
      → resolve_upstream outside c raw ≡ ok c'
      → IsLocal c'
  unfolding resolve_upstream
  resolve_upstream-IsLocal c c' none l h =
      let same : c ≡ c' = ground arith in subst (λ x. IsLocal x) same l
  resolve_upstream-IsLocal c c' (some raw) l h = elim (Outcome-cases (parse_endpoint outside raw)) [
    | inl (e, good) ↦
        let same : record c { upstream = e } ≡ c' =
          ground (arith, rw (good, resolve_upstream) at h) in
        subst (λ x. IsLocal x) same (record { endpoint = l.endpoint; mirror = l.mirror })
    | inr (_, bad) ↦ ground arith
  ]

  load_file-IsStaged :
      (c c' : DaemonConfig Addr) (path : Option Text)
      → IsStaged c
      → load_file outside c path ≡ ok c'
      → IsStaged c'
  unfolding load_file
  load_file-IsStaged c c' none s h =
      let same : c ≡ c' = ground arith in subst (λ x. IsStaged x) same s
  load_file-IsStaged c c' (some path) s h = elim (Option-cases (outside.read_to_string path)) [
    | inl unread ↦ ground arith
    | inr (content, read) ↦ elim (Option-cases (outside.from_toml content)) [
      | inl undecoded ↦ ground arith
      | inr (file, decoded) ↦
          let same : merge_file c file ≡ c' = ground arith in
          subst (λ x. IsStaged x) same (merge_file-IsStaged c file s)
    ]
  ]

  default-IsStaged : IsStaged (default_config outside.default_upstream)
  default-IsStaged = record { endpoint = refl; path = λ _. refl }

  finalize_endpoint-IsLocal :
      (c c' : DaemonConfig Addr) → IsStaged c → finalize_endpoint outside c ≡ ok c' → IsLocal c'
  unfolding finalize_endpoint
  finalize_endpoint-IsLocal c c' s h =
      elim (Outcome-cases (resolve_endpoint outside c c.endpoint_raw)) [
        | inl (d, good) ↦
            resolve_upstream-IsLocal d c' d.upstream_raw
              (resolve_endpoint-IsLocal c d c.endpoint_raw s refl good)
              (rw (good, finalize_endpoint) at h)
        | inr (_, bad) ↦ ground arith
      ]

  -- Whatever the file and the arguments say, a configuration that loads listens on an endpoint that
  -- the parser accepted, a TCP one on the loopback, and its socket path is that of a unix endpoint.
  pub from_sources-IsLocal :
      (path : Option Text) (args : DaemonArgs) (c : DaemonConfig Addr)
      → from_sources outside path args ≡ ok c
      → IsLocal c
  unfolding from_sources
  from_sources-IsLocal path args c h =
      elim (Outcome-cases (
        load_file outside (default_config outside.default_upstream)
          (config_file_path outside path))) [
            | inl (d, good) ↦
                finalize_endpoint-IsLocal (merge_args d args) c
                  (merge_args-IsStaged d args (
                    load_file-IsStaged (default_config outside.default_upstream) d
                      (config_file_path outside path) default-IsStaged good))
                  (rw (good, from_sources) at h)
            | inr (_, bad) ↦ ground arith
          ]
