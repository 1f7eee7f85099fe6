-- ===== src/Config/Sizes.antt =====
-- The sizes of a configuration that meridian-relay/src/config.rs has no key and no flag for.
use ius.Base.{
  ℕ, ◌≡◌, refl, sym, ap, ◌∙◌, ltb, Option, none, some, inl, inr, ok, Option-cases, Bool-cases,
  arith,
}
use ius.Base.Strings.{Text, str_len}
use ius.Config.Types.{ConfigFile, DaemonConfig, max_config_file_size}
use ius.Config.Merge.{merge_file}
use ius.Config.Load.{Outside, load_file}

-- The sizes that no layer above the defaults sets.
pub record SameSizes {Addr : Type 0} (base c : DaemonConfig Addr) : Type 0 where
  pub broadcast_capacity : c.broadcast_capacity ≡ base.broadcast_capacity
  pub max_reassembly_bytes : c.max_reassembly_bytes ≡ base.max_reassembly_bytes
  pub max_packet_bytes : c.max_packet_bytes ≡ base.max_packet_bytes
  pub max_conn_buffer : c.max_conn_buffer ≡ base.max_conn_buffer
  pub client_read_buf : c.client_read_buf ≡ base.client_read_buf
  pub max_data_channel : c.max_data_channel ≡ base.max_data_channel
  pub connect_channel : c.connect_channel ≡ base.connect_channel

module _ {Addr : Type 0} (outside : Outside Addr) where
  -- What merging a file leaves alone is left alone by loading one.
  load_file_keeps :
      (setting : DaemonConfig Addr → ℕ) (base l : DaemonConfig Addr) (path : Option Text)
      → ((file : ConfigFile) → setting (merge_file base file) ≡ setting base)
      → load_file outside base path ≡ ok l
      → setting l ≡ setting base
  unfolding load_file
  load_file_keeps setting base l none kept h = ap setting (ground (arith, h))
  load_file_keeps setting base l (some path) kept h =
      elim (Option-cases (outside.read_to_string path)) [
        | inl unread ↦ absurd (ground (arith, rw (unread, load_file) at h))
        | inr (content, read) ↦ elim (Bool-cases (ltb max_config_file_size (str_len content))) [
          | inl large ↦ absurd (ground (arith, rw (read, large, load_file) at h))
          | inr small ↦ elim (Option-cases (outside.from_toml content)) [
            | inl undecoded ↦ absurd (ground (arith, rw (read, small, undecoded, load_file) at h))
            | inr (file, decoded) ↦
                let same : merge_file base file ≡ l =
                  ground (arith, rw (read, small, decoded, load_file) at h) in
                ap setting (sym same) ∙ kept file
          ]
        ]
      ]

  pub load_file-SameSizes :
      (base l : DaemonConfig Addr) (path : Option Text)
      → load_file outside base path ≡ ok l
      → SameSizes base l
  unfolding load_file merge_file
  load_file-SameSizes base l path h = record {
    broadcast_capacity =
        load_file_keeps (λ (c : DaemonConfig Addr). c.broadcast_capacity) base l path (λ file. refl)
          h;
    max_reassembly_bytes =
        load_file_keeps (λ (c : DaemonConfig Addr). c.max_reassembly_bytes) base l path
          (λ file. refl) h;
    max_packet_bytes =
        load_file_keeps (λ (c : DaemonConfig Addr). c.max_packet_bytes) base l path (λ file. refl)
          h;
    max_conn_buffer =
        load_file_keeps (λ (c : DaemonConfig Addr). c.max_conn_buffer) base l path (λ file. refl) h;
    client_read_buf =
        load_file_keeps (λ (c : DaemonConfig Addr). c.client_read_buf) base l path (λ file. refl) h;
    max_data_channel =
        load_file_keeps (λ (c : DaemonConfig Addr). c.max_data_channel) base l path (λ file. refl)
          h;
    connect_channel =
        load_file_keeps (λ (c : DaemonConfig Addr). c.connect_channel) base l path (λ file. refl) h;
  }
