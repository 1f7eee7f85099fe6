-- ===== src/Program/Entry.antt =====
-- The configuration that the `daemon` command of meridian-relay/src/main.rs starts with.
use ius.Base.{
  ◌≡◌, ap, ◌∙◌, Bool, none, some, if◌then◌else◌, ◌⊎◌, inl, inr, ok, Outcome-cases, arith,
}
use ius.Base.Strings.{Text}
use ius.Config.Types.{DaemonConfig, default_config}
use ius.Config.Merge.{merge_args}
use ius.Config.Load.{Outside, load_file, config_file_path, from_sources, validate}
use ius.Config.Layers.{finalize_endpoint-IsResolved, from_sources-backend}
use ius.Config.Sizes.{SameSizes, load_file-SameSizes}
use ius.Config.Bounds.{IsPositive, validate_iff}
use ius.Program
use ius.Program.Settings.{SameSettings, resolved-SameSettings, sizes_of}
use ius.Program.{
  Cli, Started, printed, dispatch_backend, make_daemon_args, log_format_of, run_daemon_entry,
}

-- One of the two flags that set the endpoint is given.
abbrev pub OneEndpoint : Cli → Type 0
OneEndpoint cli =
    ((e : Text) × (cli.endpoint ≡ some e) × (cli.socket_path ≡ none))
    ⊎ ((p : Text) × (cli.endpoint ≡ none) × (cli.socket_path ≡ some p))

-- What the daemon has been started with, given the flags.
pub record IsStarted {Addr : Type 0} (outside : Outside Addr) (cli : Cli) (print : Bool)
    (s : Started Addr) : Type 0 where
  pub config : DaemonConfig Addr
  pub loaded : DaemonConfig Addr
  pub starts : s ≡ (if print then printed config else dispatch_backend cli.backend config)
  pub is_valid : IsPositive config
  pub log_format : config.log_format ≡ log_format_of cli.log_format
  pub loads :
      load_file outside (default_config outside.default_upstream) (config_file_path outside none)
      ≡ ok loaded
  pub settings : SameSettings loaded config
  pub sizes : SameSizes (default_config outside.default_upstream) config

module _ {Addr : Type 0} (outside : Outside Addr) where
  from_sources-SameSettings :
      (cli : Cli) (c : DaemonConfig Addr)
      → from_sources outside none (make_daemon_args cli) ≡ ok c
      → (l : DaemonConfig Addr) × (load_file outside
            (default_config outside.default_upstream)
            (config_file_path outside none)
          ≡ ok l)
        × SameSettings l c
  unfolding from_sources
  from_sources-SameSettings cli c h =
      elim (Outcome-cases (
        load_file outside (default_config outside.default_upstream)
          (config_file_path outside none))) [
            | inl (l, good) ↦ (
              l,
              good,
              resolved-SameSettings cli l c (
                  finalize_endpoint-IsResolved outside (merge_args l (make_daemon_args cli)) c
                    (rw (good, from_sources) at h)),
            )
            | inr (e, bad) ↦ ground arith
          ]

  -- What the entry returns comes from a configuration that was loaded and validated.
  run_daemon_entry-inv :
      (cli : Cli) (print : Bool) (s : Started Addr)
      → run_daemon_entry outside cli print ≡ ok s
      → (c : DaemonConfig Addr) × (from_sources outside none (make_daemon_args cli) ≡ ok c)
        × (validate c ≡ ok tt)
        × (s ≡ (if print then printed c else dispatch_backend c.backend c))
  unfolding run_daemon_entry make_daemon_args
  run_daemon_entry-inv cli print s h =
      elim (Outcome-cases (from_sources outside none (make_daemon_args cli))) [
        | inl (c, good) ↦ elim (Outcome-cases (validate c)) [
          | inl (tt, valid) ↦
              (c, good, valid, ground (arith, rw (good, valid, run_daemon_entry) at h))
          | inr (e, bad) ↦ ground (arith, rw (good, bad, run_daemon_entry) at h)
        ]
        | inr (e, bad) ↦ ground (arith, rw (bad, run_daemon_entry) at h)
      ]

  -- When the daemon command comes to its end without an error, it prints its configuration if it
  -- was asked to, and else runs the backend of the command line; this configuration has positive
  -- limits, intervals and timeouts and a mode of nine bits; its log format is that of the command
  -- line; and every setting but the endpoints, the socket path, the upstream, the backend and the
  -- log format is what the default file, if there is one, makes of the defaults, whatever the
  -- command line; the seven sizes that a file has no key for are the defaults.
  pub run_daemon_entry-IsStarted :
      (cli : Cli) (print : Bool) (s : Started Addr)
      → run_daemon_entry outside cli print ≡ ok s
      → IsStarted outside cli print s
  unfolding make_daemon_args
  run_daemon_entry-IsStarted cli print s h =
      let (c, good, valid, starts) = run_daemon_entry-inv cli print s h in
      let (l, loads, settings) = from_sources-SameSettings cli c good in
      let (backend, log_format) = from_sources-backend outside none (make_daemon_args cli) c good in
      record {
        config = c;
        loaded = l;
        starts = starts ∙ ap (λ b. if print then printed c else dispatch_backend b c) backend;
        is_valid = (validate_iff c).0 valid;
        log_format = log_format;
        loads = loads;
        settings = settings;
        sizes = sizes_of l c settings (
            load_file-SameSizes outside (default_config outside.default_upstream) l
              (config_file_path outside none) loads);
      }
