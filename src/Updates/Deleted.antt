-- ===== src/Updates/Deleted.antt =====
-- What becomes of a downloaded file that is not installed
-- (apps/mobile/src/features/updates/services/appUpdateService.ts).
use mathlib.Core.Path.{subst}
use purrivacy_app.Prelude.{
  ℕ, ◌≡◌, refl, sym, ap, ◌∙◌, inl, inr, ◌⊎◌, String, false, none, List, [], ◌++◌, Option-cases,
}
use purrivacy_app.Updates.Manifest.{Platform}
use purrivacy_app.Updates.Release.{AppRelease}
use purrivacy_app.Updates.Install.{
  Hasher, Device, Files, downloaded, UpdateAction, delete_file, start_download, UpdateEnd,
  not_verified, is_verified, delete_if_exists, after_download, preceded_by, download_and_install,
  sanitize_asset_file_name,
}
use purrivacy_app.Updates.Installed.{
  Occurs, InstallsNothing, delete_if_exists-InstallsNothing, download_run,
  download_and_install-Downloads, after_download-StartsNothing,
}
use purrivacy_app.Updates.Verified.{Genuine, is_verified-Genuine}

module _ (platform : Platform) (H : Hasher) (device : Device) where
  -- A run ends with the failed tests, installs nothing and leaves no file at the destination.
  abbrev pub CleansUp : String → Files → List UpdateAction × UpdateEnd → Type 0
  CleansUp name files run =
      (run.1 ≡ not_verified)
      × ((files (device.file_uri name) ≡ none) ⊎ Occurs (delete_file name) run.0)
      × InstallsNothing run.0

  deletes :
      (name : String) (files : Files)
      → (files (device.file_uri name) ≡ none)
        ⊎ Occurs (delete_file name) (delete_if_exists platform H device files name)
  unfolding delete_if_exists
  deletes name files = elim (Option-cases (files (device.file_uri name))) [
    | inl absent ↦ inl absent
    | inr (apk, found) ↦ inr (rw found (inl refl))
  ]

  after_download-CleansUp :
      (release : AppRelease) (name uri : String) (files : Files)
      → is_verified platform H release.signed_manifest (files (device.file_uri name)) ≡ false
      → CleansUp name files (after_download platform H device release name (downloaded files uri))
  unfolding after_download
  after_download-CleansUp release name uri files wrong =
      rw wrong
        (refl, deletes name files, delete_if_exists-InstallsNothing platform H device files name)

  -- The URL of a download that a run starts is the one that it was made for.
  started_url :
      (release : AppRelease) (url from file accept : String)
      → Occurs (start_download url file accept) (download_run platform H device release from).0
      → url ≡ from
  unfolding preceded_by
  started_url release url from file accept (inl s) = absurd (cc s)
  started_url release url from file accept (inr (inl s)) = cc s
  started_url release url from file accept (inr (inr later)) = absurd (
      after_download-StartsNothing platform H device release (sanitize_asset_file_name release)
        (device.download from (sanitize_asset_file_name release)) url file accept later)

  preceded-CleansUp :
      (release : AppRelease) (name url uri : String) (files : Files)
      (run : List UpdateAction × UpdateEnd)
      → run ≡ download_run platform H device release url
      → name ≡ sanitize_asset_file_name release
      → device.download url name ≡ downloaded files uri
      → is_verified platform H release.signed_manifest (files (device.file_uri name)) ≡ false
      → CleansUp name files run
  unfolding preceded_by
  preceded-CleansUp release name url uri files run shape named end wrong =
      let (ended, deleted, nothing) = after_download-CleansUp release name uri files wrong in
      rw (shape, sym named, end)
        (
          ended,
          elim deleted [ inl absent ↦ inl absent | inr o ↦ inr (inr (inr o)) ],
          λ place o. elim o [
            | inl s ↦ cc s
            | inr rest ↦ elim rest [ inl s ↦ cc s | inr later ↦ nothing place later ]
          ],
        )

-- When a download that the app has started leaves at its destination no genuine file (no manifest, no
-- valid signature, no file, another number of bytes or another digest), the run ends with the failed
-- tests, hands nothing to the installer, and deletes what stands at the destination, if anything does.
-- The hasher takes bytes in pieces as it takes them at once.
pub unverified_apk_is_deleted :
    (platform : Platform) (H : Hasher) (device : Device) (release : AppRelease)
    (url accept uri : String) (files : Files)
    → ((s : H.HashState) → H.update [] s ≡ s)
    → ((xs ys : List ℕ) (s : H.HashState) → H.update (xs ++ ys) s ≡ H.update ys (H.update xs s))
    → Occurs
        (start_download url (sanitize_asset_file_name release) accept)
        (download_and_install platform H device release).0
    → device.download url (sanitize_asset_file_name release) ≡ downloaded files uri
    → ¬ Genuine platform H release (files (device.file_uri (sanitize_asset_file_name release)))
    → CleansUp platform H device
        (sanitize_asset_file_name release)
        files
        (download_and_install platform H device release)
unverified_apk_is_deleted platform H device release url accept uri files nil append started end
      bad =
    elim (download_and_install-Downloads platform H device release) [
      | inl quiet ↦ absurd (quiet.1 url (sanitize_asset_file_name release) accept started)
      | inr (from, of, run) ↦
          let name : String = sanitize_asset_file_name release in
          let same : url ≡ from = started_url platform H device release url from name accept (
            subst
              (λ (r : List UpdateAction × UpdateEnd). Occurs (start_download url name accept) r.0)
              run started) in
          let end' : device.download from name ≡ downloaded files uri =
            ap (λ (u : String). device.download u name) (sym same) ∙ end in
          preceded-CleansUp platform H device release name from uri files
            (download_and_install platform H device release) run refl end'
            (is_verified-Genuine platform H nil append release (files (device.file_uri name)) bad)
    ]
