-- ===== src/Updates/Examples.antt =====
-- The properties of updates at a concrete release (apps/mobile/src/features/updates/services).
use Prim.Native.String.{String}
use purrivacy_app.Prelude.{
  ℕ, ◌≡◌, refl, inl, inr, true, none, some, List, [], ◌∷◌, ◌++◌, if◌then◌else◌, ◌==◌, same_text,
  arith,
}
use purrivacy_app.Server.Text.{
  all_chars, is_hex, is_empty, is_space, trim, trim_start, trim_end, split_dots,
}
use purrivacy_app.UserKeys.Cursor.{number_from, is_decimal}
use purrivacy_app.Updates.Text.{to_lower_case, lower_char, nth_char, before, ends_with}
use purrivacy_app.Updates.Version.{
  less, greater, without_v, normalize_version, numbers_of, add_part, parse_version_parts, by_part,
  compare_parts, compare_parsed, compare_versions,
}
use purrivacy_app.Updates.Canonical.{Payload}
use purrivacy_app.Updates.Manifest.{
  Platform, Manifest, verify_release_signature, verify_manifest_signature,
}
use purrivacy_app.Updates.Release.{AppRelease, truthy}
use purrivacy_app.Updates.Install.{
  ApkFile, Hasher, Device, Files, downloaded, is_file_char, hash_rounds, complete_digest,
  hash_file_by, hash_file_sha256, same_digest, verify_downloaded_apk, is_verified, after_download,
  preceded_by, install_from, install_url, download_and_install, sanitize_asset_file_name,
}
use purrivacy_app.Updates.Ordered.{greater_versions_are_ordered}
use purrivacy_app.Updates.Injective.{canonicalize_injective}
use purrivacy_app.Updates.Hashed.{hash_file_covers_file}
use purrivacy_app.Updates.Verified.{Genuine, installed_apk_is_signed}
use purrivacy_app.Updates.Deleted.{CleansUp, unverified_apk_is_deleted}
use purrivacy_app.Updates.FileName.{file_name_is_safe}

greater_versions_are_ordered_example :
    (compare_versions "v1.10" "1.2.9" ≡ greater) × (compare_versions "1.2.9" "v1.10" ≡ less)
unfolding compare_versions compare_parsed compare_parts by_part parse_version_parts
    normalize_version without_v before numbers_of add_part number_from is_decimal trim trim_start
    trim_end is_space split_dots all_chars is_empty
greater_versions_are_ordered_example =
    greater_versions_are_ordered "v1.10" "1.9" "1.2.9" (1 ∷ 10 ∷ []) (1 ∷ 9 ∷ []) (1 ∷ 2 ∷ 9 ∷ [])
      refl refl refl refl refl

abbrev payload : Payload
payload = record {
  version = "1.1";
  tag_name = "v1.1";
  apk_asset_name = "p.apk";
  apk_url = "https://github.com/p.apk";
  apk_size_bytes = 3;
  apk_sha256 = "ab";
  created_at = "2026";
}

canonicalize_injective_example : payload ≡ payload
canonicalize_injective_example = canonicalize_injective payload payload refl

-- A hasher that keeps all bytes and has one digest for them
abbrev toy_hasher : Hasher
toy_hasher = record {
  HashState = List ℕ;
  start = [];
  update = λ bytes state. state ++ bytes;
  digest_hex = λ state. "AB";
}

append-nil : (xs : List ℕ) → xs ++ [] ≡ xs
append-nil [] = refl
append-nil (x ∷ xs) = rw (append-nil xs) refl

append_assoc : (xs ys zs : List ℕ) → zs ++ (xs ++ ys) ≡ (zs ++ xs) ++ ys
append_assoc xs ys [] = refl
append_assoc xs ys (z ∷ zs) = rw (append_assoc xs ys zs) refl

abbrev apk : ApkFile
apk = record { bytes = 7 ∷ 8 ∷ 9 ∷ []; file_size = 3 }

hash_file_covers_file_example :
    hash_file_sha256 toy_hasher apk ≡ (if 3 == 3 then some "AB" else none)
hash_file_covers_file_example =
    hash_file_covers_file toy_hasher append-nil (λ xs ys s. append_assoc xs ys s) apk

abbrev platform : Platform
platform = record { parse_url = λ s. none; is_date = λ s. true; verify = λ message s. true }

abbrev manifest : Manifest
manifest = record { payload = payload; signature = "0f" }

abbrev release_1 : AppRelease
release_1 = record {
  tag_name = "v1.1";
  version = "1.1";
  name = "v1.1";
  body = "";
  published_at = none;
  html_url = "https://github.com";
  download_url = "https://github.com/p.apk";
  download_label = "Install Update";
  asset_name = some "p.apk";
  asset_download_url = some "https://github.com/p.apk";
  asset_size_bytes = some 3;
  can_install_in_app = true;
  signed_manifest = some manifest;
}

abbrev uri_of : String → String
uri_of name = String.◌∷◌ "/" name

-- The download leaves the file at its destination only.
abbrev device : ApkFile → Device
device file = record {
  is_android = true;
  installer_available = true;
  can_install_packages = true;
  file_uri = uri_of;
  download = λ url name.
      downloaded (λ place. if same_text place (uri_of name) then some file else none) (uri_of name);
  installer_accepts = λ uri. true;
}

lands :
    (url name : String) (files : Files) (place : String)
    → (device apk).download url name ≡ downloaded files place
    → place ≡ (device apk).file_uri name
lands url name files place h = cc h

installed_apk_is_signed_example :
    (url : String) × (files : Files) × (truthy release_1.asset_download_url ≡ some url)
    × ((device apk).download url (sanitize_asset_file_name release_1) ≡ downloaded files "/p.apk")
    × Genuine platform toy_hasher release_1 (files "/p.apk")
unfolding download_and_install install_url install_from preceded_by after_download is_verified
    verify_manifest_signature verify_release_signature verify_downloaded_apk same_digest
    hash_file_sha256 hash_file_by hash_rounds complete_digest to_lower_case lower_char nth_char
    is_empty all_chars is_hex same_text
installed_apk_is_signed_example =
    installed_apk_is_signed platform toy_hasher (device apk) release_1 "/p.apk" append-nil
      (λ xs ys s. append_assoc xs ys s) lands (inr (inr (inl refl)))

abbrev cut_apk : ApkFile
cut_apk = record { bytes = 7 ∷ 8 ∷ []; file_size = 2 }

abbrev left_files : Files
left_files place = if same_text place "/p.apk" then some cut_apk else none

not_three :
    ¬ Genuine platform toy_hasher release_1
      (left_files (uri_of (sanitize_asset_file_name release_1)))
unfolding same_text
not_three (m, file, carried, found, signed, sized, hashed) = ground (arith, carried, found, sized)

unverified_apk_is_deleted_example :
    CleansUp platform toy_hasher
      (device cut_apk)
      (sanitize_asset_file_name release_1)
      left_files
      (download_and_install platform toy_hasher (device cut_apk) release_1)
unfolding download_and_install install_url install_from preceded_by is_empty same_text
unverified_apk_is_deleted_example =
    unverified_apk_is_deleted platform toy_hasher (device cut_apk) release_1
      "https://github.com/p.apk" "application/vnd.android.package-archive" "/p.apk" left_files
      append-nil (λ xs ys s. append_assoc xs ys s) (inr (inl refl)) refl not_three

file_name_is_safe_example :
    (all_chars is_file_char (sanitize_asset_file_name release_1) ≡ true)
    × (ends_with (to_lower_case (sanitize_asset_file_name release_1)) ".apk" ≡ true)
file_name_is_safe_example = file_name_is_safe release_1
