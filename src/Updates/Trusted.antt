-- ===== src/Updates/Trusted.antt =====
-- What an accepted manifest vouches for
-- (apps/mobile/src/features/updates/services/updateManifest.ts and appUpdateService.ts).
use purrivacy_app.Prelude.{
  ℕ, ◌≡◌, refl, sym, ap, ◌∙◌, String, true, false, not, Option, none, some, arith, if_elim,
  same_text, same_text_iff, ==_iff,
}
use purrivacy_app.Server.Json.{Json, null, bool, num, str, arr, obj, entries}
use purrivacy_app.Updates.Version.{normalize_version}
use purrivacy_app.Updates.Canonical.{Payload}
use purrivacy_app.Updates.Manifest.{
  Platform, Manifest, Parsed, parsed, refused, ◌>>=◌, require_field, require_payload,
  verify_manifest_signature, is_unexpected, check_manifest, only_known, parse_update_manifest,
}
use purrivacy_app.Updates.Release.{
  Asset, GithubRelease, trimmed, trimmed_or_none, same_size, binds_to_asset, bound_or_none,
  bound_answer, fetch_between, fetch_verified_manifest, signed_manifest_of,
}

bind_parsed {ℓ κ} :
    {A : Type ℓ} {B : Type κ} (r : Parsed A) (rest : A → Parsed B) (b : B)
    → (r >>= rest) ≡ parsed b
    → (a : A) × (r ≡ parsed a) × (rest a ≡ parsed b)
bind_parsed (parsed a) rest b h = (a, refl, h)
bind_parsed (refused e) rest b h = absurd (cc h)

module _ (platform : Platform) where
  abbrev pub IsSigned : Option String → Manifest → Type 0
  IsSigned expected m =
      (verify_manifest_signature platform m ≡ true)
      × (is_unexpected platform expected m.payload.tag_name ≡ false)
      × (m.payload.version ≡ normalize_version m.payload.tag_name)

  check_manifest_sound :
      (expected : Option String) (p : Payload) (text : String) (m : Manifest)
      → check_manifest platform expected p text ≡ parsed m
      → IsSigned expected m
  unfolding check_manifest
  check_manifest_sound expected p text m h =
      ground (arith, same_text_iff p.version (normalize_version p.tag_name), h)

  parse_update_manifest-IsSigned :
      (raw : Json) (expected : Option String) (m : Manifest)
      → parse_update_manifest platform raw expected ≡ parsed m
      → IsSigned expected m
  unfolding parse_update_manifest
  parse_update_manifest-IsSigned null expected m h = absurd (cc h)
  parse_update_manifest-IsSigned (bool b) expected m h = absurd (cc h)
  parse_update_manifest-IsSigned (num n) expected m h = absurd (cc h)
  parse_update_manifest-IsSigned (str s) expected m h = absurd (cc h)
  parse_update_manifest-IsSigned (arr vs) expected m h = absurd (cc h)
  parse_update_manifest-IsSigned (obj ps) expected m h =
      if_elim (λ r. r ≡ parsed m → IsSigned expected m) (not (only_known (entries ps))) _ _
        (λ e k. absurd (cc k))
        (λ e k.
          let (p, p_ok, after) = bind_parsed (require_payload platform (entries ps)) _ m k in
          let (text, text_ok, done) =
            bind_parsed (require_field "signature" (entries ps)) _ m after in
          check_manifest_sound expected p text m done)
        h

  module _ (fetch_json : String → Option Json) where
    -- The manifest is signed for the release's tag and names the asset's URL and size.
    abbrev pub Vouches : Manifest → GithubRelease → Asset → Type 0
    Vouches m release apk =
        IsSigned (trimmed release.tag_name) m
        × (trimmed_or_none apk.browser_download_url ≡ some m.payload.apk_url)
        × (apk.asset_size ≡ some m.payload.apk_size_bytes)

    same_size_sound : (n : ℕ) (o : Option ℕ) → same_size n o ≡ true → o ≡ some n
    unfolding same_size
    same_size_sound n none h = absurd (cc h)
    same_size_sound n (some k) h = ap some (sym ((==_iff n k).0 h))

    bound_or_none_sound :
        (url : String) (apk : Asset) (r : Parsed Manifest) (m : Manifest)
        → bound_or_none url apk r ≡ some m
        → (r ≡ parsed m)
          × (m.payload.apk_url ≡ url)
          × (apk.asset_size ≡ some m.payload.apk_size_bytes)
    unfolding bound_or_none binds_to_asset
    bound_or_none_sound url apk (refused why) m h = absurd (cc h)
    bound_or_none_sound url apk (parsed n) m h =
        let same : n ≡ m = ground (arith, h) in
        let url_ok : same_text n.payload.apk_url url ≡ true = ground (arith, h) in
        let size_ok : same_size n.payload.apk_size_bytes apk.asset_size ≡ true =
          ground (arith, h) in
        (
          ap parsed same,
          ap (λ (x : Manifest). x.payload.apk_url) (sym same)
              ∙ (same_text_iff n.payload.apk_url url).0 url_ok,
          same_size_sound n.payload.apk_size_bytes apk.asset_size size_ok
              ∙ ap (λ (x : Manifest). some x.payload.apk_size_bytes) same,
        )

    bound_answer-Vouches :
        (answer : Option Json) (url : String) (release : GithubRelease) (apk : Asset) (m : Manifest)
        → bound_answer platform fetch_json answer (trimmed release.tag_name) url apk ≡ some m
        → trimmed_or_none apk.browser_download_url ≡ some url
        → Vouches m release apk
    unfolding bound_answer
    bound_answer-Vouches none url release apk m h at = absurd (cc h)
    bound_answer-Vouches (some raw) url release apk m h at =
        let (read, same_url, same_bytes) = bound_or_none_sound url apk _ m h in
        (
          parse_update_manifest-IsSigned raw (trimmed release.tag_name) m read,
          at ∙ ap some (sym same_url),
          same_bytes,
        )

    fetch_between-Vouches :
        (manifest_url url : Option String) (release : GithubRelease) (apk : Asset) (m : Manifest)
        → fetch_between platform fetch_json manifest_url url release apk ≡ some m
        → trimmed_or_none apk.browser_download_url ≡ url
        → Vouches m release apk
    unfolding fetch_between
    fetch_between-Vouches none url release apk m h at = absurd (cc h)
    fetch_between-Vouches (some place) none release apk m h at = absurd (cc h)
    fetch_between-Vouches (some place) (some url) release apk m h at =
        bound_answer-Vouches (fetch_json place) url release apk m h at

    pub signed_manifest_of-Vouches :
        (apk manifest_asset : Option Asset) (release : GithubRelease) (m : Manifest)
        → signed_manifest_of platform fetch_json apk manifest_asset release ≡ some m
        → (asset : Asset) × (apk ≡ some asset) × Vouches m release asset
    unfolding signed_manifest_of fetch_verified_manifest
    signed_manifest_of-Vouches none manifest_asset release m h = absurd (cc h)
    signed_manifest_of-Vouches (some apk) none release m h = absurd (cc h)
    signed_manifest_of-Vouches (some apk) (some other) release m h = (
      apk,
      refl,
      fetch_between-Vouches (trimmed_or_none other.browser_download_url)
          (trimmed_or_none apk.browser_download_url) release apk m h refl,
    )
