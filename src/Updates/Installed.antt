-- ===== src/Updates/Installed.antt =====
-- The runs that download a file
-- (apps/mobile/src/features/updates/services/appUpdateService.ts).
use purrivacy_app.Prelude.{
  ◌≡◌, refl, ◌⊎◌, inl, inr, String, not, Option, none, some, List, [], ◌∷◌, if_elim,
}
use purrivacy_app.Session.Types.{is_set}
use purrivacy_app.Updates.Manifest.{Platform}
use purrivacy_app.Updates.Release.{AppRelease, truthy}
use purrivacy_app.Updates.Install.{
  Hasher, Device, Files, DownloadEnd, failed, cancelled, downloaded, UpdateAction, install_apk,
  clean_downloads, start_download, UpdateEnd, is_verified, delete_if_exists, after_download,
  preceded_by, install_from, open_page, install_url, download_and_install, sanitize_asset_file_name,
  download_accept,
}

-- The action is one of those done.
abbrev pub Occurs : UpdateAction → List UpdateAction → Type 0
Occurs action [] = ⊥
Occurs action (done ∷ rest) = (action ≡ done) ⊎ Occurs action rest

-- Nothing is installed.
abbrev pub InstallsNothing : List UpdateAction → Type 0
InstallsNothing actions = (uri : String) → ¬ Occurs (install_apk uri) actions

-- No download is started.
abbrev pub StartsNothing : List UpdateAction → Type 0
StartsNothing actions =
    (url file accept : String) → ¬ Occurs (start_download url file accept) actions

module _ (platform : Platform) (H : Hasher) (device : Device) where
  -- What happens from the clean-up of the directory on.
  abbrev pub download_run : AppRelease → String → List UpdateAction × UpdateEnd
  download_run release url =
      let name = sanitize_asset_file_name release in
      preceded_by platform H device
        (clean_downloads ∷ start_download url name (download_accept url) ∷ [])
        (after_download platform H device release name (device.download url name))

  -- A run downloads from the URL and goes on, or does neither.
  abbrev pub Downloads : AppRelease → Option String → List UpdateAction × UpdateEnd → Type 0
  Downloads release from run =
      (InstallsNothing run.0 × StartsNothing run.0)
      ⊎ ((url : String) × (from ≡ some url) × (run ≡ download_run release url))

  install_from-Downloads :
      (release : AppRelease) (url : String)
      → Downloads release (some url) (install_from platform H device release url)
  unfolding install_from
  install_from-Downloads release url =
      if_elim (Downloads release (some url)) (not device.can_install_packages) _ _
        (λ e. inl (
          λ uri o. elim o [ inl s ↦ cc s | inr n ↦ n ],
          λ u f a o. elim o [ inl s ↦ cc s | inr n ↦ n ],
        ))
        (λ e. inr (url, refl, refl))

  open_page-Downloads :
      (release : AppRelease) (from : Option String)
      → Downloads release from (open_page platform H device release)
  unfolding open_page
  open_page-Downloads release from =
      inl (
        λ uri o. elim o [ inl s ↦ cc s | inr n ↦ n ],
        λ u f a o. elim o [ inl s ↦ cc s | inr n ↦ n ],
      )

  install_url-Downloads :
      (release : AppRelease) (from : Option String)
      → Downloads release from (install_url platform H device release from)
  unfolding install_url
  install_url-Downloads release none = open_page-Downloads release none
  install_url-Downloads release (some url) =
      if_elim (Downloads release (some url)) device.installer_available _ _
        (λ e. install_from-Downloads release url) (λ e. open_page-Downloads release (some url))

  pub download_and_install-Downloads :
      (release : AppRelease)
      → Downloads release
          (truthy release.asset_download_url)
          (download_and_install platform H device release)
  unfolding download_and_install
  download_and_install-Downloads release =
      if_elim (Downloads release (truthy release.asset_download_url)) (not device.is_android) _ _
        (λ e. inl (λ uri o. o, λ u f a o. o))
        (λ e.
          if_elim (Downloads release (truthy release.asset_download_url))
            (not release.can_install_in_app) _ _
            (λ d. open_page-Downloads release (truthy release.asset_download_url))
            (λ d. install_url-Downloads release (truthy release.asset_download_url)))

  delete_if_exists_only :
      (files : Files) (name : String)
      → InstallsNothing (delete_if_exists platform H device files name)
        × StartsNothing (delete_if_exists platform H device files name)
  unfolding delete_if_exists
  delete_if_exists_only files name =
      if_elim (λ (l : List UpdateAction). InstallsNothing l × StartsNothing l)
        (is_set (files (device.file_uri name))) _ _
        (λ e. (
          λ uri o. elim o [ inl s ↦ cc s | inr n ↦ n ],
          λ u f a o. elim o [ inl s ↦ cc s | inr n ↦ n ],
        ))
        (λ e. (λ uri o. o, λ u f a o. o))

  pub delete_if_exists-InstallsNothing :
      (files : Files) (name : String)
      → InstallsNothing (delete_if_exists platform H device files name)
  delete_if_exists-InstallsNothing files name = (delete_if_exists_only files name).0

  -- Nothing is downloaded after the download.
  pub after_download-StartsNothing :
      (release : AppRelease) (name : String) (end : DownloadEnd)
      → StartsNothing (after_download platform H device release name end).0
  unfolding after_download
  after_download-StartsNothing release name (failed files) = (delete_if_exists_only files name).1
  after_download-StartsNothing release name (cancelled files) = (delete_if_exists_only files name).1
  after_download-StartsNothing release name (downloaded files uri) =
      if_elim (λ (run : List UpdateAction × UpdateEnd). StartsNothing run.0)
        (not (is_verified platform H release.signed_manifest (files (device.file_uri name)))) _ _
        (λ e. (delete_if_exists_only files name).1)
        (λ e.
          if_elim (λ (run : List UpdateAction × UpdateEnd). StartsNothing run.0)
            (device.installer_accepts uri) _ _ (λ d u f a o. elim o [ inl s ↦ cc s | inr n ↦ n ])
            (λ d u f a o. elim o [
              | inl s ↦ cc s
              | inr later ↦ (delete_if_exists_only files name).1 u f a later
            ]))
