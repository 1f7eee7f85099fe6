-- ===== src/Clients/Records/Deletion.antt =====
-- What a deletion does where the two forms of an identifier name two files, and where one.
use ius.Base.{◌≡◌, ◌≢◌, refl, sym, ap, ◌∙◌, inl, inr, false, ◌&&◌, ok, Bool-cases, arith}
use ius.Base.Strings.{Text}
use ius.Security.{trim_udid}
use ius.Platform.{Directory, IsLawful}
use ius.Clients.Records.{plist_name, dashed, delete_pair_record}

module _ (D : Directory) (lawful : IsLawful D) where
  -- The two forms are different files.
  pub delete_two_forms :
      (s s' : D.State) (udid : Text)
      → plist_name (dashed (trim_udid udid)) ≢ plist_name (trim_udid udid)
      → delete_pair_record D s udid ≡ (s', ok tt)
      → (D.metadata s' (plist_name (trim_udid udid)) ≡ false)
        × (D.metadata s' (plist_name (dashed (trim_udid udid))) ≡ (
            D.metadata s (plist_name (trim_udid udid))
            && D.metadata s (plist_name (dashed (trim_udid udid)))))
        × ((name : Text)
            → name ≢ plist_name (trim_udid udid)
            → name ≢ plist_name (dashed (trim_udid udid))
            → (D.metadata s' name ≡ D.metadata s name) × (D.read s' name ≡ D.read s name))
  unfolding delete_pair_record
  delete_two_forms s s' udid apart h =
      let plain = plist_name (trim_udid udid) in
      let other = plist_name (dashed (trim_udid udid)) in
      elim (Bool-cases (D.present s)) [
        | inr missing ↦
            let gone = lawful.metadata_absent s plain missing in
            let gone' = lawful.metadata_absent s other missing in
            let same : s ≡ s' = ground (arith, h, missing) in
            (
              rw (← same, gone) refl,
              rw (← same, gone, gone') refl,
              λ name p q. rw (← same) (refl, refl),
            )
        | inl there ↦ elim (Bool-cases (D.metadata s plain)) [
          | inl found ↦
              let removed : D.remove_file s plain ≡ (s', ok tt) = ground (arith, h, there, found) in
              (
                (lawful.metadata-remove_file s s' plain removed).0,
                rw (found) ((lawful.other-remove_file s s' plain other apart removed).0),
                λ name p q. lawful.other-remove_file s s' plain name p removed,
              )
          | inr absent ↦ elim (Bool-cases (D.metadata s other)) [
            | inl found ↦
                let removed : D.remove_file s other ≡ (s', ok tt) =
                  ground (arith, h, there, absent, found) in
                (
                  (lawful.other-remove_file s s' other plain (λ e. apart (sym e)) removed).0
                      ∙ absent,
                  rw (absent) ((lawful.metadata-remove_file s s' other removed).0),
                  λ name p q. lawful.other-remove_file s s' other name q removed,
                )
            | inr absent' ↦
                let same : s ≡ s' = ground (arith, h, there, absent, absent') in
                (
                  rw (← same, absent) refl,
                  rw (← same, absent, absent') refl,
                  λ name p q. rw (← same) (refl, refl),
                )
          ]
        ]
      ]

  -- The identifier is its own dashed form.
  pub delete_one_form :
      (s s' : D.State) (udid : Text)
      → plist_name (dashed (trim_udid udid)) ≡ plist_name (trim_udid udid)
      → delete_pair_record D s udid ≡ (s', ok tt)
      → (D.metadata s' (plist_name (trim_udid udid)) ≡ false)
        × ((name : Text)
            → name ≢ plist_name (trim_udid udid)
            → (D.metadata s' name ≡ D.metadata s name) × (D.read s' name ≡ D.read s name))
  unfolding delete_pair_record
  delete_one_form s s' udid one h =
      let plain = plist_name (trim_udid udid) in
      elim (Bool-cases (D.present s)) [
        | inr missing ↦
            let same : s ≡ s' = ground (arith, h, missing) in
            (
              rw (← same, lawful.metadata_absent s plain missing) refl,
              λ name p. rw (← same) (refl, refl),
            )
        | inl there ↦ elim (Bool-cases (D.metadata s plain)) [
          | inl found ↦
              let removed : D.remove_file s plain ≡ (s', ok tt) = ground (arith, h, there, found) in
              (
                (lawful.metadata-remove_file s s' plain removed).0,
                λ name p. lawful.other-remove_file s s' plain name p removed,
              )
          | inr absent ↦
              let same : s ≡ s' = ground (arith, h, there, absent, ap (λ n. D.metadata s n) one) in
              (rw (← same, absent) refl, λ name p. rw (← same) (refl, refl))
        ]
      ]
