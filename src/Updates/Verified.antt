-- ===== src/Updates/Verified.antt =====
-- What an installed file has been checked against
-- (apps/mobile/src/features/updates/services/appUpdateService.ts).
use mathlib.Core.Path.{subst}
use purrivacy_app.Prelude.{
  ℕ, ◌≡◌, refl, sym, ap, ◌∙◌, String, Bool, true, false, not, ◌&&◌, Option, none, some, List, [],
  ◌++◌, arith, length, ◌==◌, ==_iff, if◌then◌else◌, same_text_iff, if_elim, Bool-cases, inl, inr,
}
use purrivacy_app.Updates.Text.{to_lower_case}
use purrivacy_app.Updates.Manifest.{Platform, Manifest, verify_manifest_signature}
use purrivacy_app.Updates.Release.{AppRelease, truthy}
use purrivacy_app.Updates.Install.{
  ApkFile, Hasher, Device, Files, DownloadEnd, failed, cancelled, downloaded, UpdateAction,
  UpdateEnd, install_apk, hash_file_sha256, same_digest, verify_downloaded_apk, is_verified,
  after_download, preceded_by, download_and_install, sanitize_asset_file_name,
}
use purrivacy_app.Updates.Hashed.{hash_file_covers_file}
use purrivacy_app.Updates.Installed.{
  Occurs, delete_if_exists-InstallsNothing, download_run, download_and_install-Downloads,
}

both : (a b : Bool) → (a && b) ≡ true → (a ≡ true) × (b ≡ true)
both true b h = (refl, h)
both false b h = absurd (cc h)

module _ (H : Hasher) where
  same_digest_sound :
      (n size : ℕ) (digest expected : String)
      → same_digest H (if n == size then some digest else none) expected ≡ true
      → (n ≡ size) × (to_lower_case digest ≡ to_lower_case expected)
  unfolding same_digest
  same_digest_sound n size digest expected h =
      ground (arith, same_text_iff (to_lower_case digest) (to_lower_case expected), h)

  downloaded_sound :
      (apk : ApkFile) (m : Manifest)
      → verify_downloaded_apk H apk m ≡ true
      → (apk.file_size ≡ m.payload.apk_size_bytes)
        × (same_digest H (hash_file_sha256 H apk) m.payload.apk_sha256 ≡ true)
  unfolding verify_downloaded_apk
  downloaded_sound apk m h =
      let (sized, hashed) =
        both (apk.file_size == m.payload.apk_size_bytes)
          (same_digest H (hash_file_sha256 H apk) m.payload.apk_sha256) h in
      ((==_iff apk.file_size m.payload.apk_size_bytes).0 sized, hashed)

-- The release carries a manifest whose signature is valid, and what stands there is a file that has as
-- many bytes as the manifest says and whose bytes have the manifest's digest, up to the case of letters.
abbrev pub Genuine : Platform → Hasher → AppRelease → Option ApkFile → Type 0
Genuine platform H release found =
    (m : Manifest) × (apk : ApkFile) × (release.signed_manifest ≡ some m)
    × (found ≡ some apk)
    × (verify_manifest_signature platform m ≡ true)
    × (length apk.bytes ≡ m.payload.apk_size_bytes)
    × (to_lower_case (H.digest_hex (H.update apk.bytes H.start))
        ≡ to_lower_case m.payload.apk_sha256)

module _ (platform : Platform) (H : Hasher) (nil : (s : H.HashState) → H.update [] s ≡ s)
    (append : (xs ys : List ℕ) (s : H.HashState)
      → H.update (xs ++ ys) s ≡ H.update ys (H.update xs s)) where
  signed_by :
      (release : AppRelease) (m : Manifest) (apk : ApkFile)
      → release.signed_manifest ≡ some m
      → (verify_manifest_signature platform m && verify_downloaded_apk H apk m) ≡ true
      → Genuine platform H release (some apk)
  signed_by release m apk carried good =
      let (signed, checked) =
        both (verify_manifest_signature platform m) (verify_downloaded_apk H apk m) good in
      let (sized, hashed) = downloaded_sound H apk m checked in
      let (whole, same) =
        same_digest_sound H (length apk.bytes) apk.file_size
          (H.digest_hex (H.update apk.bytes H.start)) m.payload.apk_sha256
          (ap (λ d. same_digest H d m.payload.apk_sha256)
              (sym (hash_file_covers_file H nil append apk))
            ∙ hashed) in
      (m, apk, carried, refl, signed, whole ∙ sized, same)

  verified_by :
      (release : AppRelease) (o : Option Manifest) (found : Option ApkFile)
      → release.signed_manifest ≡ o
      → is_verified platform H o found ≡ true
      → Genuine platform H release found
  unfolding is_verified
  verified_by release none found carried good = absurd (cc good)
  verified_by release (some m) none carried good = absurd (cc good)
  verified_by release (some m) (some apk) carried good = signed_by release m apk carried good

  pub is_verified-Genuine :
      (release : AppRelease) (found : Option ApkFile)
      → ¬ Genuine platform H release found
      → is_verified platform H release.signed_manifest found ≡ false
  is_verified-Genuine release found bad =
      elim (Bool-cases (is_verified platform H release.signed_manifest found)) [
        | inl good ↦ absurd (bad (verified_by release release.signed_manifest found refl good))
        | inr wrong ↦ wrong
      ]

  -- What a run that downloaded the files installs is what stands at the result's URI.
  download_run_installs :
      (device : Device) (release : AppRelease) (name uri : String) (end : DownloadEnd)
      → ((files : Files) (place : String)
          → end ≡ downloaded files place
          → place ≡ device.file_uri name)
      → Occurs (install_apk uri) (after_download platform H device release name end).0
      → (files : Files) × (end ≡ downloaded files uri) × Genuine platform H release (files uri)
  unfolding after_download
  download_run_installs device release name uri (failed files) lands h =
      absurd (delete_if_exists-InstallsNothing platform H device files name uri h)
  download_run_installs device release name uri (cancelled files) lands h =
      absurd (delete_if_exists-InstallsNothing platform H device files name uri h)
  download_run_installs device release name uri (downloaded files place) lands h =
      if_elim
        (λ (run : List UpdateAction × UpdateEnd).
          Occurs (install_apk uri) run.0
          → (files' : Files) × (downloaded files place ≡ downloaded files' uri)
            × Genuine platform H release (files' uri))
        (not (is_verified platform H release.signed_manifest (files (device.file_uri name)))) _ _
        (λ e o. absurd (delete_if_exists-InstallsNothing platform H device files name uri o))
        (λ e.
          let good : is_verified platform H release.signed_manifest (files (device.file_uri name))
              ≡ true =
            ground (arith, e) in
          let genuine : Genuine platform H release (files (device.file_uri name)) =
            verified_by release release.signed_manifest (files (device.file_uri name)) refl good in
          let at_place : Genuine platform H release (files place) =
            subst (λ (u : String). Genuine platform H release (files u))
              (sym (lands files place refl)) genuine in
          let result : uri ≡ place
              → (files' : Files) × (downloaded files place ≡ downloaded files' uri)
                × Genuine platform H release (files' uri) =
            λ same. (
              files,
              ap (downloaded files) (sym same),
              subst (λ (u : String). Genuine platform H release (files u)) (sym same) at_place,
            ) in
          if_elim
            (λ (run : List UpdateAction × UpdateEnd).
              Occurs (install_apk uri) run.0
              → (files' : Files) × (downloaded files place ≡ downloaded files' uri)
                × Genuine platform H release (files' uri))
            (device.installer_accepts place) _ _
            (λ d o. elim o [ inl s ↦ result (cc s) | inr n ↦ absurd n ])
            (λ d o. elim o [
              | inl s ↦ result (cc s)
              | inr later ↦
                  absurd (delete_if_exists-InstallsNothing platform H device files name uri later)
            ]))
        h

-- Whatever the device answers, when the app hands a URI to the installer, it has downloaded the
-- release's asset, and what stands at that URI after the download is genuine: the release carries a
-- manifest whose signature is valid, and the file has as many bytes as the manifest says and the
-- manifest's digest, up to the case of letters. A download that succeeds gives the URI of the file that
-- it was started for, and the hasher takes bytes in pieces as it takes them at once.
pub installed_apk_is_signed :
    (platform : Platform) (H : Hasher) (device : Device) (release : AppRelease) (uri : String)
    → ((s : H.HashState) → H.update [] s ≡ s)
    → ((xs ys : List ℕ) (s : H.HashState) → H.update (xs ++ ys) s ≡ H.update ys (H.update xs s))
    → ((url name : String) (files : Files) (place : String)
        → device.download url name ≡ downloaded files place
        → place ≡ device.file_uri name)
    → Occurs (install_apk uri) (download_and_install platform H device release).0
    → (url : String) × (files : Files) × (truthy release.asset_download_url ≡ some url)
      × (device.download url (sanitize_asset_file_name release) ≡ downloaded files uri)
      × Genuine platform H release (files uri)
unfolding preceded_by
installed_apk_is_signed platform H device release uri nil append lands h =
    elim (download_and_install-Downloads platform H device release) [
      | inl quiet ↦ absurd (quiet.0 uri h)
      | inr (url, from, run) ↦
          let name : String = sanitize_asset_file_name release in
          let later : Occurs (install_apk uri) (download_run platform H device release url).0 =
            subst (λ (r : List UpdateAction × UpdateEnd). Occurs (install_apk uri) r.0) run h in
          let installed : Occurs (install_apk uri)
              (after_download platform H device release name (device.download url name)).0 =
            elim later [
              | inl s ↦ absurd (cc s)
              | inr rest ↦ elim rest [ inl s ↦ absurd (cc s) | inr o ↦ o ]
            ] in
          let (files, end, genuine) =
            download_run_installs platform H nil append device release name uri
              (device.download url name) (lands url name) installed in
          (url, files, from, end, genuine)
    ]
