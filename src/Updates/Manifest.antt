-- ===== src/Updates/Manifest.antt =====
-- Signed update manifests (apps/mobile/src/features/updates/services/updateManifest.ts and
-- updateSigning.ts). The parser of URLs, the parser of dates and the check of a signature under the
-- pinned key are not the repository's code: they are a record that the definitions take. The messages
-- of the errors are left out.
use Prim.Native.String.{String}
use purrivacy_app.Prelude.{
  ℕ, Bool, true, false, not, ◌&&◌, ◌||◌, Option, none, some, [], ◌∷◌, ltb, ◌==◌, if◌then◌else◌,
  same_text,
}
use Prim.Native.Char.{code}
use purrivacy_app.Prelude.Dict.{Dict, lookup}
use purrivacy_app.Server.Json.{Json, num, str, obj, entries}
use purrivacy_app.Server.Text.{trim, text_length, is_empty, all_chars, is_hex, between}
use purrivacy_app.Updates.Text.{to_lower_case}
use purrivacy_app.Updates.Version.{normalize_version}
use purrivacy_app.Updates.Canonical.{Payload, canonicalize}

-- What the manifest's code reads of a `URL`; `href` is its `toString()`.
pub record Url : Type 0 where
  pub protocol : String
  pub hostname : String
  pub href : String

-- `new URL`, `none` where it throws; whether `Date.parse` is finite; and `verifier.verify` for a text and
-- a signature under the pinned key, `false` where it throws
pub record Platform : Type 0 where
  pub parse_url : String → Option Url
  pub is_date : String → Bool
  pub verify : String → String → Bool

-- `UpdateManifestErrorCode`
pub data ManifestError : Type 0 where
  malformed missing_field invalid_value version_mismatch bad_signature : ManifestError

pub data Parsed {ℓ} (A : Type ℓ) : Type ℓ where
  parsed : A → Parsed A
  refused : ManifestError → Parsed A

infixl 5 ◌>>=◌
-- What follows a check that may throw.
abbrev pub ◌>>=◌ {ℓ κ} : {A : Type ℓ} {B : Type κ} → Parsed A → (A → Parsed B) → Parsed B
result >>= rest = elim result [ parsed value ↦ rest value | refused why ↦ refused why ]

-- `UpdateManifest`
pub record Manifest : Type 0 where
  pub payload : Payload
  pub signature : String

unfoldable pub check_field : Option Json → Parsed String
check_field (some (str s)) =
    if text_length (trim s) == 0 then refused missing_field else parsed (trim s)
check_field _ = refused missing_field

-- `requireString`
unfoldable pub require_field : String → Dict Json → Parsed String
unfolding check_field
require_field key raw = check_field (lookup key raw)

unfoldable pub check_size : Option Json → Parsed ℕ
check_size (some (num n)) =
    if ltb 9_007_199_254_740_991 n || n == 0 then refused invalid_value else parsed n
check_size _ = refused invalid_value

-- `requireNumber`
unfoldable pub require_number : String → Dict Json → Parsed ℕ
unfolding check_size
require_number key raw = check_size (lookup key raw)

-- `[0-9a-f]`
unfoldable pub is_lower_hex : ℕ → Bool
is_lower_hex n = between b'0' b'9' n || between b'a' b'f' n

-- `requireSha256`
unfoldable pub require_sha256 : Dict Json → Parsed String
unfolding require_field is_lower_hex to_lower_case
require_sha256 raw = require_field "apkSha256" raw >>= λ text.
    let value = to_lower_case text in
    if all_chars is_lower_hex value && text_length value == 64
    then parsed value
    else refused invalid_value

-- The tests of a URL in `requireHttpsGitHubUrl`
unfoldable pub check_url : Option Url → Parsed String
unfolding to_lower_case
check_url none = refused invalid_value
check_url (some url) =
    if not (same_text url.protocol "https:")
      || not (same_text (to_lower_case url.hostname) "github.com")
    then refused invalid_value
    else parsed url.href

-- The text starts as the pattern says: `d` is a digit, every other character itself.
unfoldable pub fits_pattern : String → String → Bool
fits_pattern String.[] s = true
fits_pattern (String.◌∷◌ p ps) String.[] = false
fits_pattern (String.◌∷◌ p ps) (String.◌∷◌ c s) =
    (if code p == b'd' then between b'0' b'9' (code c) else code c == code p) && fits_pattern ps s

unfoldable pub known_key : String → Bool
known_key key =
    same_text key "version"
    || same_text key "tagName"
    || same_text key "apkAssetName"
    || same_text key "apkUrl"
    || same_text key "apkSizeBytes"
    || same_text key "apkSha256"
    || same_text key "createdAt"
    || same_text key "signature"

-- The loop over `Object.keys(raw)` finds no unknown field.
unfoldable pub only_known : Dict Json → Bool
unfolding known_key
only_known [] = true
only_known ((key, value) ∷ fields) = known_key key && only_known fields

module _ (platform : Platform) where
  -- `requireHttpsGitHubUrl`
  unfoldable pub require_url : Dict Json → Parsed String
  unfolding require_field check_url
  require_url raw = require_field "apkUrl" raw >>= λ value. check_url (platform.parse_url value)

  -- `requireCreatedAt`
  unfoldable pub require_created_at : Dict Json → Parsed String
  unfolding require_field fits_pattern
  require_created_at raw = require_field "createdAt" raw >>= λ value.
      if not (fits_pattern "dddd-dd-ddTdd:dd:dd" value) || not (platform.is_date value)
      then refused invalid_value
      else parsed value

  -- The object literal of the payload in `parseUpdateManifest`
  unfoldable pub require_payload : Dict Json → Parsed Payload
  unfolding require_field require_url require_number require_sha256 require_created_at
  require_payload raw = require_field "version" raw >>= λ version_text.
      require_field "tagName" raw >>= λ tag. require_field "apkAssetName" raw >>= λ asset.
      require_url raw >>= λ url. require_number "apkSizeBytes" raw >>= λ size.
      require_sha256 raw >>= λ sha. require_created_at raw >>= λ created. parsed record {
        version = version_text;
        tag_name = tag;
        apk_asset_name = asset;
        apk_url = url;
        apk_size_bytes = size;
        apk_sha256 = sha;
        created_at = created;
      }

  -- `verifyReleaseSignature`
  unfoldable pub verify_release_signature : String → String → Bool
  verify_release_signature message signature =
      not (is_empty signature) && all_chars is_hex signature && platform.verify message signature

  -- `verifyUpdateManifestSignature`
  unfoldable pub verify_manifest_signature : Manifest → Bool
  unfolding verify_release_signature canonicalize
  verify_manifest_signature m = verify_release_signature (canonicalize m.payload) m.signature

  unfoldable pub is_unexpected : Option String → String → Bool
  is_unexpected none tag = false
  is_unexpected (some expected) tag = not (same_text tag expected)

  -- The checks behind the payload's in `parseUpdateManifest`
  unfoldable pub check_manifest : Option String → Payload → String → Parsed Manifest
  unfolding is_unexpected normalize_version verify_manifest_signature
  check_manifest expected p text =
      if not (all_chars is_hex text) || ltb 1_024 (text_length text)
      then refused invalid_value
      else if is_unexpected expected p.tag_name
      then refused version_mismatch
      else if not (same_text p.version (normalize_version p.tag_name))
      then refused version_mismatch
      else if not (verify_manifest_signature record { payload = p; signature = text })
      then refused bad_signature
      else parsed record { payload = p; signature = text }

  -- `parseUpdateManifest`
  unfoldable pub parse_update_manifest : Json → Option String → Parsed Manifest
  unfolding only_known require_payload require_field check_manifest
  parse_update_manifest (obj ps) expected =
      if not (only_known (entries ps))
      then refused malformed
      else (require_payload (entries ps) >>= λ p.
          require_field "signature" (entries ps) >>= λ text. check_manifest expected p text)
  parse_update_manifest _ expected = refused malformed
