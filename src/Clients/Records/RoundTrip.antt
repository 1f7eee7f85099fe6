-- ===== src/Clients/Records/RoundTrip.antt =====
-- What a pair record that was saved or deleted means to the later reads.
use ius.Base.{
  ◌≡◌, ◌≢◌, ◌⊎◌, refl, ◌∙◌, inl, inr, true, false, not, ◌&&◌, some, ok, Outcome-cases, Bool-cases,
  arith,
}
use ius.Base.Words.{Bytes}
use ius.Base.Strings.{Text}
use ius.Base.Texts.{bytes_eq, bytes_eq_iff}
use ius.Security.{trim_udid, sanitize_udid_for_path, validate_udid}
use ius.Platform.{Directory, IsLawful, secure_write_secret}
use ius.Clients.Records.{
  plist_name, dashed, ensure_dir, has_pair_record, read_pair_record, save_pair_record,
  delete_pair_record,
}
use ius.Clients.Records.Deletion.{delete_two_forms, delete_one_form}

module _ (D : Directory) (lawful : IsLawful D) where
  -- The three calls of a write that succeeded.
  secure_write_secret_calls :
      (s s' : D.State) (path : Text) (contents : Bytes)
      → secure_write_secret D s path contents ≡ (s', ok tt)
      → (s₁ : D.State) × (s₂ : D.State) × (D.open_secret s path ≡ (s₁, ok tt))
        × (D.write_all s₁ path contents ≡ (s₂, ok tt))
        × (D.sync_all s₂ path ≡ (s', ok tt))
  unfolding secure_write_secret
  secure_write_secret_calls s s' path contents h =
      let s₁ = (D.open_secret s path).0 in
      let s₂ = (D.write_all s₁ path contents).0 in
      elim (Outcome-cases (D.open_secret s path).1) [
        | inr (e, failed) ↦ absurd (ground (arith, h, failed))
        | inl (_, opened) ↦ elim (Outcome-cases (D.write_all s₁ path contents).1) [
          | inr (e, failed) ↦ absurd (ground (arith, h, opened, failed))
          | inl (_, written) ↦ (
            s₁,
            s₂,
            ground (arith, opened),
            ground (arith, written),
            ground (arith, h, opened, written),
          )
        ]
      ]

  save_pair_record_calls :
      (s s' : D.State) (udid : Text) (contents : Bytes)
      → save_pair_record D s udid contents ≡ (s', ok tt)
      → (s₀ : D.State) × (ensure_dir D s ≡ (s₀, ok tt))
        × (sanitize_udid_for_path udid ≡ some (trim_udid udid))
        × (secure_write_secret D s₀ (plist_name (trim_udid udid)) contents ≡ (s', ok tt))
  unfolding save_pair_record sanitize_udid_for_path
  save_pair_record_calls s s' udid contents h = elim (Outcome-cases (ensure_dir D s).1) [
    | inr (e, failed) ↦ absurd (ground (arith, h, failed))
    | inl (_, made) ↦ elim (Outcome-cases (validate_udid (trim_udid udid))) [
      | inr (e, bad) ↦ absurd (ground (arith, h, made, bad))
      | inl (_, good) ↦ (
        (ensure_dir D s).0,
        ground (arith, made),
        ground (arith, good),
        ground (arith, h, made, good),
      )
    ]
  ]

  -- The file that a save leaves, and every other one.
  saved :
      (s s' : D.State) (udid : Text) (contents : Bytes)
      → save_pair_record D s udid contents ≡ (s', ok tt)
      → (D.present s' ≡ true)
        × (D.metadata s' (plist_name (trim_udid udid)) ≡ true)
        × (D.read s' (plist_name (trim_udid udid)) ≡ ok contents)
  saved s s' udid contents h =
      let (s₀, made, named, wrote) = save_pair_record_calls s s' udid contents h in
      let (s₁, s₂, opened, written, synced) =
        secure_write_secret_calls s₀ s' (plist_name (trim_udid udid)) contents wrote in
      lawful.read-written s₀ s₁ s₂ s' (plist_name (trim_udid udid)) contents opened written synced

  ensure_dir_keeps :
      (s s' : D.State) (name : Text)
      → ensure_dir D s ≡ (s', ok tt)
      → (D.metadata s' name ≡ D.metadata s name) × (D.read s' name ≡ D.read s name)
  unfolding ensure_dir
  ensure_dir_keeps s s' name h = elim (Bool-cases (D.present s)) [
    | inl there ↦ ground (arith, h, there)
    | inr missing ↦ lawful.metadata-create_dir_all s s' name (ground (arith, h, missing))
  ]

  saved_others :
      (s s' : D.State) (udid : Text) (contents : Bytes) (name : Text)
      → name ≢ plist_name (trim_udid udid)
      → save_pair_record D s udid contents ≡ (s', ok tt)
      → (D.metadata s' name ≡ D.metadata s name) × (D.read s' name ≡ D.read s name)
  saved_others s s' udid contents name apart h =
      let (s₀, made, named, wrote) = save_pair_record_calls s s' udid contents h in
      let (s₁, s₂, opened, written, synced) =
        secure_write_secret_calls s₀ s' (plist_name (trim_udid udid)) contents wrote in
      let (m, r) = ensure_dir_keeps s s₀ name made in
      let (m', r') =
        lawful.other-written s₀ s₁ s₂ s' (plist_name (trim_udid udid)) contents name apart opened
          written synced in
      (m' ∙ m, r' ∙ r)

  -- A record that was saved is there, and is read back: under the identifier that it was saved
  -- under, and under one that is this identifier but for the dash and has no file of its own.
  pub read_pair_record-save_pair_record :
      (s s' : D.State) (udid reader : Text) (contents : Bytes)
      → save_pair_record D s udid contents ≡ (s', ok tt)
      → (trim_udid reader ≡ trim_udid udid)
        ⊎ ((dashed (trim_udid reader) ≡ trim_udid udid)
            × (D.metadata s (plist_name (trim_udid reader)) ≡ false))
      → (read_pair_record D s' reader ≡ ok contents) × (has_pair_record D s' reader ≡ true)
  unfolding read_pair_record has_pair_record
  read_pair_record-save_pair_record s s' udid reader contents h names =
      let (there, found, reads) = saved s s' udid contents h in
      elim names [
        | inl same ↦ (rw (there, same, found) reads, rw (there, same, found) refl)
        | inr (by_dash, alone) ↦
            elim (Bool-cases
              (bytes_eq (plist_name (trim_udid reader)) (plist_name (trim_udid udid)))) [
                | inl same ↦
                    let e = (bytes_eq_iff _ _).0 same in
                    (rw (there, e, found) reads, rw (there, e, found) refl)
                | inr apart ↦
                    let (m, r) =
                      saved_others s s' udid contents (plist_name (trim_udid reader))
                        (λ e. ground (
                          arith,
                          (bytes_eq_iff (plist_name (trim_udid reader))
                                (plist_name (trim_udid udid))).1
                              e,
                          apart,
                        ))
                        h in
                    (
                      rw (there, m, alone, by_dash, found) reads,
                      rw (there, m, alone, by_dash, found) refl,
                    )
              ]
      ]

  -- A deletion that succeeds takes away the file of the identifier as it was given. Where the dashed
  -- form is another file, that one is there afterwards just if both were there: it is taken away only
  -- where the first was missing. Other files stay.
  pub delete_pair_record-metadata :
      (s s' : D.State) (udid : Text)
      → delete_pair_record D s udid ≡ (s', ok tt)
      → (D.metadata s' (plist_name (trim_udid udid)) ≡ false)
        × (D.metadata s' (plist_name (dashed (trim_udid udid))) ≡ (
            not (bytes_eq (plist_name (dashed (trim_udid udid))) (plist_name (trim_udid udid)))
            && D.metadata s (plist_name (trim_udid udid))
            && D.metadata s (plist_name (dashed (trim_udid udid)))))
        × ((name : Text)
            → name ≢ plist_name (trim_udid udid)
            → name ≢ plist_name (dashed (trim_udid udid))
            → (D.metadata s' name ≡ D.metadata s name) × (D.read s' name ≡ D.read s name))
  delete_pair_record-metadata s s' udid h =
      let plain = plist_name (trim_udid udid) in
      let other = plist_name (dashed (trim_udid udid)) in
      elim (Bool-cases (bytes_eq other plain)) [
        | inl one ↦
            let same = (bytes_eq_iff other plain).0 one in
            let (gone, rest) = delete_one_form D lawful s s' udid same h in
            (gone, rw (one, same) gone, λ name p q. rest name p)
        | inr two ↦
            let (gone, kept, rest) =
              delete_two_forms D lawful s s' udid
                (λ e. ground (arith, two, (bytes_eq_iff other plain).1 e)) h in
            (gone, rw two kept, rest)
      ]
