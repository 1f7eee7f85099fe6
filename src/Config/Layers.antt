-- ===== src/Config/Layers.antt =====
-- Which layer a setting comes from.
use ius.Base.{
  ◌≡◌, refl, sym, ap, ◌∙◌, subst, false, Option, none, some, if◌then◌else◌, is_empty, inl, inr, ok,
  Outcome-cases, ◌≤◌, le→ltb, arith,
}
use ius.Base.Strings.{Text, str_len}
use ius.Transport.{Endpoint, unix, named_pipe, tcp}
use ius.Config.Types.{ConfigFile, DaemonArgs, DaemonConfig, default_config, max_config_file_size}
use ius.Config.Merge.{merge_file, merge_args, or_keep, or_keep_some, merged_mode}
use ius.Config.Load.{
  Outside, parse_endpoint, set_endpoint, resolve_endpoint, resolve_upstream, finalize_endpoint,
  load_file, from_sources, config_file_path,
}

-- The endpoint, the socket path and the upstream are all that the resolution changes.
pub record IsResolved {Addr : Type 0} (c c' : DaemonConfig Addr) : Type 0 where
  pub endpoint : Endpoint Addr
  pub socket_path : Text
  pub upstream : Endpoint Addr
  pub only : c' ≡ record c { endpoint = endpoint; socket_path = socket_path; upstream = upstream }

module _ {Addr : Type 0} (outside : Outside Addr) where
  set_endpoint-IsResolved :
      (c : DaemonConfig Addr) (e : Endpoint Addr) → IsResolved c (set_endpoint outside c e)
  set_endpoint-IsResolved c (unix p) = record {
    endpoint = unix p;
    socket_path = p;
    upstream = c.upstream;
    only = refl;
  }
  set_endpoint-IsResolved c (named_pipe n) = record {
    endpoint = named_pipe n;
    socket_path = c.socket_path;
    upstream = c.upstream;
    only = refl;
  }
  set_endpoint-IsResolved c (tcp a) = record {
    endpoint = tcp a;
    socket_path = c.socket_path;
    upstream = c.upstream;
    only = refl;
  }

  resolve_endpoint-IsResolved :
      (c c' : DaemonConfig Addr) (raw : Option Text)
      → resolve_endpoint outside c raw ≡ ok c'
      → IsResolved c c'
  unfolding resolve_endpoint
  resolve_endpoint-IsResolved c c' none h = record {
    endpoint = c.endpoint;
    socket_path = c.socket_path;
    upstream = c.upstream;
    only = ground arith;
  }
  resolve_endpoint-IsResolved c c' (some raw) h =
      elim (Outcome-cases (parse_endpoint outside raw)) [
        | inl (e, good) ↦
            let same : set_endpoint outside c e ≡ c' =
              ground (arith, rw (good, resolve_endpoint) at h) in
            subst (λ x. IsResolved c x) same (set_endpoint-IsResolved c e)
        | inr (e, bad) ↦ ground arith
      ]

  resolve_upstream-IsResolved :
      (c c' : DaemonConfig Addr) (raw : Option Text)
      → resolve_upstream outside c raw ≡ ok c'
      → (u : Endpoint Addr) × (c' ≡ record c { upstream = u })
  unfolding resolve_upstream
  resolve_upstream-IsResolved c c' none h = (c.upstream, ground arith)
  resolve_upstream-IsResolved c c' (some raw) h =
      elim (Outcome-cases (parse_endpoint outside raw)) [
        | inl (e, good) ↦ (e, ground (arith, rw (good, resolve_upstream) at h))
        | inr (e, bad) ↦ ground arith
      ]

  pub finalize_endpoint-IsResolved :
      (c c' : DaemonConfig Addr) → finalize_endpoint outside c ≡ ok c' → IsResolved c c'
  unfolding finalize_endpoint
  finalize_endpoint-IsResolved c c' h =
      elim (Outcome-cases (resolve_endpoint outside c c.endpoint_raw)) [
        | inl (d, good) ↦
            let r = resolve_endpoint-IsResolved c d c.endpoint_raw good in
            let (u, same) =
              resolve_upstream-IsResolved d c' d.upstream_raw (rw (good, finalize_endpoint) at h) in
            record {
              endpoint = r.endpoint;
              socket_path = r.socket_path;
              upstream = u;
              only = same ∙ ap (λ (x : DaemonConfig Addr). record x { upstream = u }) r.only;
            }
        | inr (e, bad) ↦ ground arith
      ]

-- A setting is that of the arguments, else of the file, else the default. The last seven are the
-- defaults, since neither the arguments nor the file have them.
pub record IsLayered {Addr : Type 0} (file : ConfigFile) (args : DaemonArgs)
    (base c : DaemonConfig Addr) : Type 0 where
  pub socket_mode :
      c.socket_mode ≡ merged_mode args.socket_mode (merged_mode file.socket_mode base.socket_mode)
  pub socket_group :
      c.socket_group
      ≡ or_keep_some args.socket_group (or_keep_some file.socket_group base.socket_group)
  pub pipe_security :
      c.pipe_security ≡ or_keep args.pipe_security (or_keep file.pipe_security base.pipe_security)
  pub lockdown_dir :
      c.lockdown_dir ≡ or_keep args.lockdown_dir (or_keep file.lockdown_dir base.lockdown_dir)
  pub require_pair_record : c.require_pair_record ≡ (
      if args.no_require_pair_record
      then false
      else or_keep file.require_pair_record base.require_pair_record)
  pub scan_interval :
      c.scan_interval
      ≡ or_keep args.scan_interval_ms (or_keep file.scan_interval_ms base.scan_interval)
  pub usb_timeout :
      c.usb_timeout ≡ or_keep args.usb_timeout_ms (or_keep file.usb_timeout_ms base.usb_timeout)
  pub connect_timeout :
      c.connect_timeout
      ≡ or_keep args.connect_timeout_ms (or_keep file.connect_timeout_ms base.connect_timeout)
  pub max_clients :
      c.max_clients ≡ or_keep args.max_clients (or_keep file.max_clients base.max_clients)
  pub read_workers :
      c.read_workers ≡ or_keep args.read_workers (or_keep file.read_workers base.read_workers)
  pub allowed_uids : c.allowed_uids ≡ (
      if is_empty args.allow_uids
      then or_keep file.allowed_uids base.allowed_uids
      else args.allow_uids)
  pub allowed_sids : c.allowed_sids ≡ (
      if is_empty args.allow_sids
      then or_keep file.allowed_sids base.allowed_sids
      else args.allow_sids)
  pub broadcast_capacity : c.broadcast_capacity ≡ base.broadcast_capacity
  pub max_reassembly_bytes : c.max_reassembly_bytes ≡ base.max_reassembly_bytes
  pub max_packet_bytes : c.max_packet_bytes ≡ base.max_packet_bytes
  pub max_conn_buffer : c.max_conn_buffer ≡ base.max_conn_buffer
  pub client_read_buf : c.client_read_buf ≡ base.client_read_buf
  pub max_data_channel : c.max_data_channel ≡ base.max_data_channel
  pub connect_channel : c.connect_channel ≡ base.connect_channel

resolved-IsLayered :
    {Addr : Type 0} (file : ConfigFile) (args : DaemonArgs) (base c : DaemonConfig Addr)
    → IsResolved (merge_args (merge_file base file) args) c
    → IsLayered file args base c
unfolding merge_args merge_file
resolved-IsLayered file args base c r =
    subst (λ x. IsLayered file args base x) (sym r.only)
      (record {
        socket_mode = refl;
        socket_group = refl;
        pipe_security = refl;
        lockdown_dir = refl;
        require_pair_record = refl;
        scan_interval = refl;
        usb_timeout = refl;
        connect_timeout = refl;
        max_clients = refl;
        read_workers = refl;
        allowed_uids = refl;
        allowed_sids = refl;
        broadcast_capacity = refl;
        max_reassembly_bytes = refl;
        max_packet_bytes = refl;
        max_conn_buffer = refl;
        client_read_buf = refl;
        max_data_channel = refl;
        connect_channel = refl;
      })

module _ {Addr : Type 0} (outside : Outside Addr) where
  load_file-some :
      (base : DaemonConfig Addr) (path content : Text) (file : ConfigFile)
      → outside.read_to_string path ≡ some content
      → str_len content ≤ max_config_file_size
      → outside.from_toml content ≡ some file
      → load_file outside base (some path) ≡ ok (merge_file base file)
  unfolding load_file
  load_file-some base path content file r small t =
      rw (r, le→ltb max_config_file_size (str_len content) small, t, load_file)

  -- With a file that can be read and decoded, every setting but the endpoints, the socket path, the
  -- upstream, the backend and the log format comes from the arguments, where these do not give it
  -- from the file, and else from the defaults; the seven sizes that neither can give are the
  -- defaults.
  pub from_sources-IsLayered :
      (path content : Text) (file : ConfigFile) (args : DaemonArgs) (c : DaemonConfig Addr)
      → outside.read_to_string path ≡ some content
      → str_len content ≤ max_config_file_size
      → outside.from_toml content ≡ some file
      → from_sources outside (some path) args ≡ ok c
      → IsLayered file args (default_config outside.default_upstream) c
  unfolding from_sources
  from_sources-IsLayered path content file args c r small t h =
      let base = default_config outside.default_upstream in
      resolved-IsLayered file args base c (
        finalize_endpoint-IsResolved outside (merge_args (merge_file base file) args) c
          (rw (load_file-some base path content file r small t, from_sources) at h))

  resolved-backend :
      (args : DaemonArgs) (base c : DaemonConfig Addr)
      → IsResolved (merge_args base args) c
      → (c.backend ≡ args.backend) × (c.log_format ≡ args.log_format)
  unfolding merge_args
  resolved-backend args base c r =
      subst (λ x. (x.backend ≡ args.backend) × (x.log_format ≡ args.log_format)) (sym r.only)
        (refl, refl)

  -- The backend and the log format are always those of the arguments, which have a default of their
  -- own: a file cannot set them.
  pub from_sources-backend :
      (path : Option Text) (args : DaemonArgs) (c : DaemonConfig Addr)
      → from_sources outside path args ≡ ok c
      → (c.backend ≡ args.backend) × (c.log_format ≡ args.log_format)
  unfolding from_sources
  from_sources-backend path args c h =
      elim (Outcome-cases (
        load_file outside (default_config outside.default_upstream)
          (config_file_path outside path))) [
            | inl (d, good) ↦ resolved-backend args d c (
                finalize_endpoint-IsResolved outside (merge_args d args) c
                  (rw (good, from_sources) at h))
            | inr (e, bad) ↦ ground arith
          ]
