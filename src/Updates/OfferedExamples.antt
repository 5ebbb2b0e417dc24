-- ===== src/Updates/OfferedExamples.antt =====
-- A signed release that the app offers (apps/mobile/src/features/updates/services).
use Prim.Native.String.{String}
use purrivacy_app.Prelude.{◌≡◌, refl, true, none, some, [], ◌∷◌, same_text}
use purrivacy_app.Prelude.Dict.{lookup}
use purrivacy_app.Server.Json.{Json, num, str, obj, property, end}
use purrivacy_app.Server.Text.{
  all_chars, is_hex, is_empty, is_space, trim, trim_start, trim_end, text_length,
}
use purrivacy_app.Updates.Text.{to_lower_case, lower_char, nth_char, before, ends_with, same_chars}
use purrivacy_app.Updates.Version.{without_v, normalize_version}
use purrivacy_app.Updates.Manifest.{
  Platform, Manifest, check_field, require_field, check_size, require_number, is_lower_hex,
  require_sha256, check_url, fits_pattern, known_key, only_known, require_url, require_created_at,
  require_payload, verify_release_signature, verify_manifest_signature, is_unexpected,
  check_manifest, parse_update_manifest,
}
use purrivacy_app.Updates.Release.{
  Asset, GithubRelease, AppRelease, truthy, trimmed, trimmed_or_none, or_text, or_option,
  is_apk_name, is_manifest_name, is_some, find, find_apk, asset_or, get_preferred_asset, same_size,
  binds_to_asset, bound_or_none, bound_answer, fetch_between, fetch_verified_manifest,
  signed_manifest_of, app_release, release_with, to_app_release,
}
use purrivacy_app.Updates.Offered.{installable_release_is_signed}

abbrev apk_asset : Asset
apk_asset = record {
  name = some "p.apk";
  url = none;
  browser_download_url = some "https://github.com/p.apk";
  asset_size = some 3;
}

abbrev manifest_asset : Asset
manifest_asset = record {
  name = some "update-manifest.json";
  url = none;
  browser_download_url = some "https://github.com/m";
  asset_size = none;
}

abbrev github_release : GithubRelease
github_release = record {
  tag_name = some "v1.1";
  name = none;
  body = none;
  published_at = none;
  html_url = some "https://github.com";
  assets = apk_asset ∷ manifest_asset ∷ [];
}

abbrev digest : String
digest = "0123456789abcdef0123456789abcdef0123456789abcdef0123456789abcdef"

abbrev manifest_json : Json
manifest_json = obj (
    property "version" (str "1.1") (
      property "tagName" (str "v1.1") (
        property "apkAssetName" (str "p.apk") (
          property "apkUrl" (str "https://github.com/p.apk") (
            property "apkSizeBytes" (num 3) (
              property "apkSha256" (str digest) (
                property "createdAt" (str "2026-08-18T00:00:00Z")
                  (property "signature" (str "0f") end))))))))

abbrev signing_platform : Platform
signing_platform = record {
  parse_url = λ s. some record { protocol = "https:"; hostname = "github.com"; href = s };
  is_date = λ s. true;
  verify = λ message signature. true;
}

abbrev offered : AppRelease
offered =
    app_release signing_platform (λ url. some manifest_json) true github_release "v1.1"
      "https://github.com"

installable_release_is_signed_example :
    (m : Manifest) × (apk : Asset) × (offered.signed_manifest ≡ some m)
    × (verify_manifest_signature signing_platform m ≡ true)
    × (m.payload.tag_name ≡ "v1.1")
    × (m.payload.version ≡ offered.version)
    × (find_apk github_release.assets ≡ some apk)
    × (trimmed_or_none apk.browser_download_url ≡ some m.payload.apk_url)
    × (apk.asset_size ≡ some m.payload.apk_size_bytes)
unfolding to_app_release release_with app_release get_preferred_asset find_apk find is_apk_name
    is_manifest_name signed_manifest_of fetch_verified_manifest fetch_between bound_answer
    bound_or_none binds_to_asset parse_update_manifest check_manifest require_payload require_field
    check_field require_number check_size require_sha256 is_lower_hex require_url check_url
    require_created_at fits_pattern known_key only_known is_unexpected verify_release_signature
    verify_manifest_signature trimmed_or_none truthy trimmed or_option asset_or is_some same_size
    to_lower_case lower_char nth_char before ends_with same_chars without_v normalize_version
    all_chars is_hex is_empty is_space trim trim_start trim_end text_length lookup same_text or_text
installable_release_is_signed_example =
    installable_release_is_signed signing_platform (λ url. some manifest_json) true github_release
      offered refl refl
