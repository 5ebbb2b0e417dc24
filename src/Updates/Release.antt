-- ===== src/Updates/Release.antt =====
-- The latest release as the app offers it
-- (apps/mobile/src/features/updates/services/appUpdateService.ts and githubReleaseClient.ts). A property
-- that the answer of GitHub leaves out or has as `null` is `none`. The answer to a request is an
-- argument, `none` where it is no success, no JSON, or the request fails.
use Prim.Native.String.{String}
use purrivacy_app.Prelude.{
  ℕ, Bool, true, false, ◌&&◌, Option, none, some, List, [], ◌∷◌, ◌==◌, if◌then◌else◌, same_text,
}
use purrivacy_app.Server.Json.{Json}
use purrivacy_app.Server.Text.{trim, is_empty}
use purrivacy_app.Updates.Text.{to_lower_case, ends_with}
use purrivacy_app.Updates.Version.{Order, greater, normalize_version, compare_versions}
use purrivacy_app.Updates.Manifest.{
  Platform, Manifest, Parsed, parsed, refused, parse_update_manifest,
}

-- `GitHubReleaseAsset`
pub record Asset : Type 0 where
  pub name : Option String
  pub url : Option String
  pub browser_download_url : Option String
  pub asset_size : Option ℕ

-- `GitHubRelease`; an absent list of assets is empty.
pub record GithubRelease : Type 0 where
  pub tag_name : Option String
  pub name : Option String
  pub body : Option String
  pub published_at : Option String
  pub html_url : Option String
  pub assets : List Asset

pub record AppRelease : Type 0 where
  pub tag_name : String
  pub version : String
  pub name : String
  pub body : String
  pub published_at : Option String
  pub html_url : String
  pub download_url : String
  pub download_label : String
  pub asset_name : Option String
  pub asset_download_url : Option String
  pub asset_size_bytes : Option ℕ
  pub can_install_in_app : Bool
  pub signed_manifest : Option Manifest

-- A text that is truthy
unfoldable pub truthy : Option String → Option String
truthy none = none
truthy (some s) = if is_empty s then none else some s

-- `?.trim()`
unfoldable pub trimmed : Option String → Option String
trimmed none = none
trimmed (some s) = some (trim s)

-- `?.trim() || null`
unfoldable pub trimmed_or_none : Option String → Option String
unfolding truthy trimmed
trimmed_or_none s = truthy (trimmed s)

-- `||` and `??` with a text
unfoldable pub or_text : Option String → String → String
or_text none other = other
or_text (some s) other = s

unfoldable pub or_option : Option String → Option String → Option String
or_option none other = other
or_option (some s) other = some s

unfoldable pub is_apk_name : Option String → Bool
unfolding to_lower_case ends_with
is_apk_name none = false
is_apk_name (some s) = ends_with (to_lower_case s) ".apk"

unfoldable pub is_manifest_name : Option String → Bool
unfolding to_lower_case
is_manifest_name none = false
is_manifest_name (some s) = same_text (to_lower_case s) "update-manifest.json"

unfoldable pub is_some {ℓ} : {A : Type ℓ} → Option A → Bool
is_some none = false
is_some (some a) = true

-- `find`
unfoldable pub find : (Asset → Bool) → List Asset → Option Asset
find p [] = none
find p (asset ∷ assets) = let rest = find p assets in if p asset then some asset else rest

unfoldable pub find_apk : List Asset → Option Asset
unfolding find is_apk_name
find_apk = find (λ (asset : Asset). is_apk_name asset.name)

unfoldable pub asset_or : Option Asset → Option Asset → Option Asset
asset_or (some asset) other = some asset
asset_or none other = other

-- `getPreferredAsset`; the flag says whether the app runs on Android.
unfoldable pub get_preferred_asset : Bool → List Asset → Option Asset
unfolding find_apk asset_or truthy is_some
get_preferred_asset android assets =
    if android
    then asset_or (find_apk assets)
        (find (λ (asset : Asset). is_some (truthy asset.browser_download_url)) assets)
    else none

unfoldable pub same_size : ℕ → Option ℕ → Bool
same_size n none = false
same_size n (some m) = n == m

-- `bindsToAsset`
unfoldable pub binds_to_asset : Manifest → String → Asset → Bool
unfolding or_text same_size
binds_to_asset m url asset =
    same_text m.payload.apk_url url
    && same_text m.payload.apk_asset_name (trim (or_text asset.name ""))
    && same_size m.payload.apk_size_bytes asset.asset_size

unfoldable pub bound_or_none : String → Asset → Parsed Manifest → Option Manifest
unfolding binds_to_asset
bound_or_none url asset (refused why) = none
bound_or_none url asset (parsed m) = if binds_to_asset m url asset then some m else none

module _ (platform : Platform) (fetch_json : String → Option Json) where
  unfoldable pub bound_answer : Option Json → Option String → String → Asset → Option Manifest
  unfolding bound_or_none
  bound_answer none tag url asset = none
  bound_answer (some raw) tag url asset =
      bound_or_none url asset (parse_update_manifest platform raw tag)

  unfoldable pub fetch_between :
      Option String → Option String → GithubRelease → Asset → Option Manifest
  unfolding bound_answer trimmed
  fetch_between none url release asset = none
  fetch_between (some manifest_url) none release asset = none
  fetch_between (some manifest_url) (some url) release asset =
      bound_answer (fetch_json manifest_url) (trimmed release.tag_name) url asset

  -- `fetchVerifiedUpdateManifest`
  unfoldable pub fetch_verified_manifest : Asset → GithubRelease → Asset → Option Manifest
  unfolding fetch_between trimmed_or_none
  fetch_verified_manifest manifest_asset release apk_asset =
      fetch_between (trimmed_or_none manifest_asset.browser_download_url)
        (trimmed_or_none apk_asset.browser_download_url) release apk_asset

  -- `signedManifest` in `toAppRelease`
  unfoldable pub signed_manifest_of : Option Asset → Option Asset → GithubRelease → Option Manifest
  unfolding fetch_verified_manifest
  signed_manifest_of none manifest_asset release = none
  signed_manifest_of (some apk) none release = none
  signed_manifest_of (some apk) (some manifest_asset) release =
      fetch_verified_manifest manifest_asset release apk

  abbrev name_of : Option Asset → Option String
  name_of none = none
  name_of (some asset) = asset.name

  abbrev browser_url_of : Option Asset → Option String
  browser_url_of none = none
  browser_url_of (some asset) = asset.browser_download_url

  abbrev url_of : Option Asset → Option String
  url_of none = none
  url_of (some asset) = asset.url

  abbrev size_of : Option Asset → Option ℕ
  size_of none = none
  size_of (some asset) = asset.asset_size

  -- The release that `toAppRelease` returns, once it has the tag and the page's URL
  unfoldable pub app_release : Bool → GithubRelease → String → String → AppRelease
  unfolding get_preferred_asset find_apk find is_manifest_name signed_manifest_of trimmed_or_none
      or_text or_option is_some truthy normalize_version
  app_release android release tag html =
      let preferred = get_preferred_asset android release.assets in
      let apk = if android then find_apk release.assets else none in
      let manifest_asset =
        if android
        then find (λ (asset : Asset). is_manifest_name asset.name) release.assets
        else none in
      let manifest = signed_manifest_of apk manifest_asset release in
      let asset_url =
        or_option (trimmed_or_none (url_of preferred))
          (trimmed_or_none (browser_url_of preferred)) in
      let installable = android && is_some apk && is_some asset_url && is_some manifest in
      record {
        tag_name = tag;
        version = normalize_version tag;
        name = or_text (trimmed_or_none release.name) tag;
        body = or_text (trimmed_or_none release.body) "No release notes were provided.";
        published_at = truthy release.published_at;
        html_url = html;
        download_url = or_text (trimmed_or_none (browser_url_of preferred)) html;
        download_label =
            if installable
            then "Install Update"
            else if is_some preferred
            then "Update"
            else "Release Notes";
        asset_name = trimmed_or_none (name_of preferred);
        asset_download_url = asset_url;
        asset_size_bytes = size_of preferred;
        can_install_in_app = installable;
        signed_manifest = manifest;
      }

  unfoldable pub release_with :
      Bool → GithubRelease → Option String → Option String → Option AppRelease
  unfolding app_release
  release_with android release none html = none
  release_with android release (some tag) none = none
  release_with android release (some tag) (some html) = some (app_release android release tag html)

  -- `toAppRelease`, `none` where it throws
  unfoldable pub to_app_release : Bool → GithubRelease → Option AppRelease
  unfolding release_with trimmed_or_none
  to_app_release android release =
      release_with android release (trimmed_or_none release.tag_name)
        (trimmed_or_none release.html_url)

unfoldable pub is_greater : Order → Bool
is_greater greater = true
is_greater _ = false

-- `isAvailable` in `checkForUpdate`
unfoldable pub is_available : AppRelease → String → Bool
unfolding is_greater compare_versions
is_available release current_version = is_greater (compare_versions release.version current_version)
