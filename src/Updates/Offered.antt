-- ===== src/Updates/Offered.antt =====
-- The release that the app offers to install
-- (apps/mobile/src/features/updates/services/appUpdateService.ts).
use mathlib.Core.Path.{subst}
use purrivacy_app.Prelude.{
  ◌≡◌, refl, ap, ◌∙◌, String, Bool, true, false, Option, none, some, arith, same_text_iff,
}
use purrivacy_app.Server.Json.{Json}
use purrivacy_app.Updates.Version.{normalize_version}
use purrivacy_app.Updates.Manifest.{Platform, Manifest, verify_manifest_signature, is_unexpected}
use purrivacy_app.Updates.Release.{
  Asset, GithubRelease, AppRelease, trimmed, trimmed_or_none, truthy, is_some, find, find_apk,
  is_manifest_name, signed_manifest_of, app_release, release_with, to_app_release,
}
use purrivacy_app.Updates.Trusted.{signed_manifest_of-Vouches}

is_some_sound {ℓ} : {A : Type ℓ} (o : Option A) → is_some o ≡ true → (a : A) × (o ≡ some a)
unfolding is_some
is_some_sound none h = absurd (cc h)
is_some_sound (some a) h = (a, refl)

truthy_sound : (o : Option String) (s : String) → truthy o ≡ some s → o ≡ some s
unfolding truthy
truthy_sound none s h = absurd (cc h)
truthy_sound (some t) s h = ground (arith, h)

version_as_named :
    (version tag named : String)
    → version ≡ normalize_version named
    → named ≡ tag
    → version ≡ normalize_version tag
version_as_named version tag named h same = h ∙ ap normalize_version same

module _ (platform : Platform) (fetch_json : String → Option Json) where
  -- A release that may be installed in the app, and the manifest and asset behind it
  abbrev pub IsInstallable : GithubRelease → AppRelease → Type 0
  IsInstallable release r =
      (m : Manifest) × (apk : Asset) × (r.signed_manifest ≡ some m)
      × (verify_manifest_signature platform m ≡ true)
      × (m.payload.tag_name ≡ r.tag_name)
      × (m.payload.version ≡ r.version)
      × (find_apk release.assets ≡ some apk)
      × (trimmed_or_none apk.browser_download_url ≡ some m.payload.apk_url)
      × (apk.asset_size ≡ some m.payload.apk_size_bytes)

  named_as_expected :
      (tag : String) (o : Option String) (named : String)
      → o ≡ some tag
      → is_unexpected platform o named ≡ false
      → named ≡ tag
  unfolding is_unexpected
  named_as_expected tag none named h k = absurd (cc h)
  named_as_expected tag (some t) named h k = ground (arith, same_text_iff named t, h, k)

  app_release-IsInstallable :
      (android : Bool) (release : GithubRelease) (tag html : String)
      → trimmed_or_none release.tag_name ≡ some tag
      → (app_release platform fetch_json android release tag html).can_install_in_app ≡ true
      → IsInstallable release (app_release platform fetch_json android release tag html)
  unfolding app_release trimmed_or_none
  app_release-IsInstallable false release tag html at h = absurd (cc h)
  app_release-IsInstallable true release tag html at h =
      let other = find (λ (asset : Asset). is_manifest_name asset.name) release.assets in
      let manifest =
        signed_manifest_of platform fetch_json (find_apk release.assets) other release in
      let there : is_some manifest ≡ true = ground (arith, h) in
      let (m, found) = is_some_sound manifest there in
      let (apk, apk_found, vouched) =
        signed_manifest_of-Vouches platform fetch_json (find_apk release.assets) other release m
          found in
      let ((signed, expected, versioned), at_url, at_size) = vouched in
      let named =
        named_as_expected tag (trimmed release.tag_name) m.payload.tag_name
          (truthy_sound (trimmed release.tag_name) tag at) expected in
      (
        m,
        apk,
        found,
        signed,
        named,
        version_as_named m.payload.version tag m.payload.tag_name versioned named,
        apk_found,
        at_url,
        at_size,
      )

  release_with-IsInstallable :
      (android : Bool) (release : GithubRelease) (tag html : Option String) (r : AppRelease)
      → trimmed_or_none release.tag_name ≡ tag
      → release_with platform fetch_json android release tag html ≡ some r
      → r.can_install_in_app ≡ true
      → IsInstallable release r
  unfolding release_with
  release_with-IsInstallable android release none html r at h k = absurd (cc h)
  release_with-IsInstallable android release (some tag) none r at h k = absurd (cc h)
  release_with-IsInstallable android release (some tag) (some html) r at h k =
      let same : app_release platform fetch_json android release tag html ≡ r = cc h in
      subst (IsInstallable release) same (
        app_release-IsInstallable android release tag html at
          (ap (λ (x : AppRelease). x.can_install_in_app) same ∙ k))

-- A release that the app offers to install itself carries a manifest whose signature over its payload
-- is valid, that names the release's tag and the version of that tag, and that names the URL and the
-- size of the release's first APK.
pub installable_release_is_signed :
    (platform : Platform) (fetch_json : String → Option Json) (android : Bool)
    (release : GithubRelease) (r : AppRelease)
    → to_app_release platform fetch_json android release ≡ some r
    → r.can_install_in_app ≡ true
    → (m : Manifest) × (apk : Asset) × (r.signed_manifest ≡ some m)
      × (verify_manifest_signature platform m ≡ true)
      × (m.payload.tag_name ≡ r.tag_name)
      × (m.payload.version ≡ r.version)
      × (find_apk release.assets ≡ some apk)
      × (trimmed_or_none apk.browser_download_url ≡ some m.payload.apk_url)
      × (apk.asset_size ≡ some m.payload.apk_size_bytes)
unfolding to_app_release
installable_release_is_signed platform fetch_json android release r h k =
    release_with-IsInstallable platform fetch_json android release
      (trimmed_or_none release.tag_name) (trimmed_or_none release.html_url) r refl h k
