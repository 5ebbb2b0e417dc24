-- ===== src/Updates/Install.antt =====
-- The download, the verification and the installation of an update
-- (apps/mobile/src/features/updates/services/appUpdateService.ts and androidApkInstaller.ts). The
-- device's answers, the hash and the installer are arguments; progress reports are left out. What the
-- code does to the device is a list of actions.
use Prim.Native.Char.{code}
use Prim.Native.String.{String, ◌++◌}
use purrivacy_app.Prelude.{
  ℕ, zero, suc, ◌+◌, ◌*◌, Bool, false, not, ◌&&◌, ◌||◌, Option, none, some, List, [], ◌∷◌, length,
  take, drop, ltb, leb, ◌==◌, if◌then◌else◌, same_text,
}
use purrivacy_app.Session.Types.{is_set}
use purrivacy_app.Server.Text.{between}
use purrivacy_app.Responses.Registry.{starts_with}
use purrivacy_app.Updates.Text.{to_lower_case, ends_with}
use purrivacy_app.Updates.Manifest.{Platform, Manifest, verify_manifest_signature}
use purrivacy_app.Updates.Release.{AppRelease, truthy, or_text}

-- `APK_HASH_CHUNK_SIZE`
abbrev pub apk_hash_chunk_size : ℕ
apk_hash_chunk_size = 1024 * 1024

-- `[a-z0-9._-]` with the flag `i`
unfoldable pub is_file_char : ℕ → Bool
is_file_char n =
    between b'a' b'z' n
    || between b'A' b'Z' n
    || between b'0' b'9' n
    || n == b'.'
    || n == b'_'
    || n == b'-'

-- `replace(/[^a-z0-9._-]/gi, '-')`, by UTF-16 code units
unfoldable pub replace_chars : String → String
unfolding is_file_char
replace_chars String.[] = String.[]
replace_chars (String.◌∷◌ c s) =
    let rest = replace_chars s in
    if is_file_char (code c)
    then String.◌∷◌ c rest
    else if leb 65_536 (code c)
    then String.◌∷◌ "-" (String.◌∷◌ "-" rest)
    else String.◌∷◌ "-" rest

unfoldable pub with_extension : String → String
unfolding to_lower_case ends_with
with_extension name = if ends_with (to_lower_case name) ".apk" then name else name ++ ".apk"

-- `sanitizeAssetFileName`
unfoldable pub sanitize_asset_file_name : AppRelease → String
unfolding truthy or_text replace_chars with_extension
sanitize_asset_file_name release = with_extension (
    replace_chars
      (or_text (truthy release.asset_name) ("purrivacy-" ++ (release.version ++ ".apk"))))

-- The `Accept` header of `getDownloadHeaders`
unfoldable pub download_accept : String → String
unfolding starts_with
download_accept url =
    if starts_with url "https://api.github.com/"
    then "application/octet-stream"
    else "application/vnd.android.package-archive"

-- A file: the bytes that are read from it, and the size that the file system reports
pub record ApkFile : Type 0 where
  pub bytes : List ℕ
  pub file_size : ℕ

-- `Sha256Hasher`
pub record Hasher : Type 1 where
  pub HashState : Type 0
  pub start : HashState
  pub update : List ℕ → HashState → HashState
  pub digest_hex : HashState → String

module _ (H : Hasher) where
  -- The loop of `hashFileSha256`, on fuel: `none` where the fuel is used up
  unfoldable pub hash_rounds :
      (chunk_size fuel : ℕ) → List ℕ → H.HashState → (total : ℕ) → Option (H.HashState × ℕ)
  hash_rounds chunk_size zero rest state total = none
  hash_rounds chunk_size (suc fuel) rest state total =
      let chunk = take chunk_size rest in
      let later =
        hash_rounds chunk_size fuel (drop chunk_size rest) (H.update chunk state)
          (total + length chunk) in
      if length chunk == 0
      then some (state, total)
      else if ltb (length chunk) chunk_size
      then some (H.update chunk state, total + length chunk)
      else later

  unfoldable pub complete_digest : ℕ → Option (H.HashState × ℕ) → Option String
  complete_digest size none = none
  complete_digest size (some (state, total)) =
      if total == size then some (H.digest_hex state) else none

  -- `hashFileSha256` with chunks of any size, `none` where it throws
  unfoldable pub hash_file_by : (chunk_size : ℕ) → ApkFile → Option String
  unfolding hash_rounds complete_digest
  hash_file_by chunk_size file =
      complete_digest file.file_size
        (hash_rounds chunk_size (suc (length file.bytes)) file.bytes H.start 0)

  -- `hashFileSha256`
  unfoldable pub hash_file_sha256 : ApkFile → Option String
  unfolding hash_file_by
  hash_file_sha256 = hash_file_by apk_hash_chunk_size

  unfoldable pub same_digest : Option String → String → Bool
  unfolding to_lower_case
  same_digest none expected = false
  same_digest (some digest) expected = same_text (to_lower_case digest) (to_lower_case expected)

  -- `verifyDownloadedApk`, `false` where it throws
  unfoldable pub verify_downloaded_apk : ApkFile → Manifest → Bool
  unfolding hash_file_sha256 same_digest
  verify_downloaded_apk file m =
      file.file_size == m.payload.apk_size_bytes
      && same_digest (hash_file_sha256 file) m.payload.apk_sha256

-- The files of the device, by URI
abbrev pub Files : Type 0
Files = String → Option ApkFile

-- The end of `downloadAsync`, with the files that it leaves: it throws, is cancelled or gives the URI of
-- its result.
pub data DownloadEnd : Type 0 where
  failed cancelled : Files → DownloadEnd
  downloaded : Files → String → DownloadEnd

-- The device: whether it runs Android, has the installer and may install packages, the URI of a file in
-- the download directory, what a download from a URL to such a file ends with, and whether the installer
-- accepts a URI
pub record Device : Type 0 where
  pub is_android : Bool
  pub installer_available : Bool
  pub can_install_packages : Bool
  pub file_uri : String → String
  pub download : String → String → DownloadEnd
  pub installer_accepts : String → Bool

-- What the code does to the device
pub data UpdateAction : Type 0 where
  open_url : String → UpdateAction
  open_install_settings clean_downloads : UpdateAction
  start_download : String → String → String → UpdateAction
  install_apk : String → UpdateAction
  delete_file : String → UpdateAction

pub data UpdateEnd : Type 0 where
  completed permission_missing download_failed download_cancelled : UpdateEnd
  not_verified install_failed : UpdateEnd

module _ (platform : Platform) (H : Hasher) where
  -- The tests before the installation, of what stands at the destination; a file that is not there fails
  -- them
  unfoldable pub is_verified : Option Manifest → Option ApkFile → Bool
  unfolding verify_downloaded_apk verify_manifest_signature
  is_verified none file = false
  is_verified (some m) none = false
  is_verified (some m) (some file) =
      verify_manifest_signature platform m && verify_downloaded_apk H file m

module _ (platform : Platform) (H : Hasher) (device : Device) where
  -- `if (destinationFile.exists) destinationFile.delete()`
  unfoldable pub delete_if_exists : Files → String → List UpdateAction
  delete_if_exists files name =
      if is_set (files (device.file_uri name)) then delete_file name ∷ [] else []

  -- What follows the download, with the `catch` block. `name` is the name of `destinationFile`, and `uri`
  -- is `result.uri`.
  unfoldable pub after_download : AppRelease → String → DownloadEnd → List UpdateAction × UpdateEnd
  unfolding is_verified delete_if_exists
  after_download release name (failed files) = (delete_if_exists files name, download_failed)
  after_download release name (cancelled files) = (delete_if_exists files name, download_cancelled)
  after_download release name (downloaded files uri) =
      if not (is_verified platform H release.signed_manifest (files (device.file_uri name)))
      then (delete_if_exists files name, not_verified)
      else if device.installer_accepts uri
      then (install_apk uri ∷ [], completed)
      else (install_apk uri ∷ delete_if_exists files name, install_failed)

  unfoldable pub preceded_by :
      List UpdateAction → List UpdateAction × UpdateEnd → List UpdateAction × UpdateEnd
  preceded_by [] run = run
  preceded_by (action ∷ actions) run =
      (action ∷ (preceded_by actions run).0, (preceded_by actions run).1)

  -- The part of `downloadAndInstallApk` behind its first three tests
  unfoldable pub install_from : AppRelease → String → List UpdateAction × UpdateEnd
  unfolding after_download sanitize_asset_file_name download_accept preceded_by
  install_from release url =
      let file = sanitize_asset_file_name release in
      if not device.can_install_packages
      then (open_install_settings ∷ [], permission_missing)
      else preceded_by (clean_downloads ∷ start_download url file (download_accept url) ∷ [])
          (after_download release file (device.download url file))

  -- `Linking.openURL(release.downloadUrl || release.htmlUrl)`
  unfoldable pub open_page : AppRelease → List UpdateAction × UpdateEnd
  unfolding truthy or_text
  open_page release =
      (open_url (or_text (truthy (some release.download_url)) release.html_url) ∷ [], completed)

  unfoldable pub install_url : AppRelease → Option String → List UpdateAction × UpdateEnd
  unfolding install_from open_page
  install_url release none = open_page release
  install_url release (some url) =
      if device.installer_available then install_from release url else open_page release

  -- `downloadAndInstallApk`
  unfoldable pub download_and_install : AppRelease → List UpdateAction × UpdateEnd
  unfolding install_url open_page truthy
  download_and_install release =
      if not device.is_android
      then ([], completed)
      else if not release.can_install_in_app
      then open_page release
      else install_url release (truthy release.asset_download_url)
