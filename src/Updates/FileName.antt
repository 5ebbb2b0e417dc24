-- ===== src/Updates/FileName.antt =====
-- The name under which an update is stored
-- (apps/mobile/src/features/updates/services/appUpdateService.ts).
use Prim.Native.Char.{code}
use Prim.Native.String.{String, ◌++◌}
use purrivacy_app.Prelude.{◌≡◌, refl, true, if_elim, arith, leb}
use purrivacy_app.Server.Append.{append_cons}
use purrivacy_app.Server.Text.{all_chars}
use purrivacy_app.Updates.Text.{to_lower_case, lower_char, nth_char, same_chars, ends_with}
use purrivacy_app.Updates.Release.{AppRelease, truthy, or_text}
use purrivacy_app.Updates.Install.{
  is_file_char, replace_chars, with_extension, sanitize_asset_file_name,
}

replace_chars_safe : (s : String) → all_chars is_file_char (replace_chars s) ≡ true
unfolding replace_chars all_chars
replace_chars_safe String.[] = refl
replace_chars_safe (String.◌∷◌ c s) =
    if_elim (λ r. all_chars is_file_char r ≡ true) (is_file_char (code c)) _ _
      (λ e. rw (e, replace_chars_safe s) refl)
      (λ e.
        if_elim (λ r. all_chars is_file_char r ≡ true) (leb 65_536 (code c)) _ _
          (λ d. unfold is_file_char in replace_chars_safe s)
          (λ d. unfold is_file_char in replace_chars_safe s))

extended_safe :
    (s : String) → all_chars is_file_char s ≡ true → all_chars is_file_char (s ++ ".apk") ≡ true
unfolding all_chars is_file_char
extended_safe String.[] h = refl
extended_safe (String.◌∷◌ c s) h = rw (append_cons c s ".apk") (ground (arith, extended_safe s, h))

extended_ends : (s : String) → ends_with (to_lower_case (s ++ ".apk")) ".apk" ≡ true
unfolding ends_with to_lower_case lower_char nth_char same_chars
extended_ends String.[] = refl
extended_ends (String.◌∷◌ c s) =
    rw (append_cons c s ".apk") (if_elim (λ b. b ≡ true) _ _ _ (λ e. refl) (λ e. extended_ends s))

with_extension_safe :
    (s : String)
    → all_chars is_file_char s ≡ true
    → (all_chars is_file_char (with_extension s) ≡ true)
      × (ends_with (to_lower_case (with_extension s)) ".apk" ≡ true)
unfolding with_extension
with_extension_safe s h =
    if_elim
      (λ (r : String).
        (all_chars is_file_char r ≡ true) × (ends_with (to_lower_case r) ".apk" ≡ true))
      (ends_with (to_lower_case s) ".apk") s (s ++ ".apk") (λ e. (h, e))
      (λ e. (extended_safe s h, extended_ends s))

-- Whatever a release is called, the name of the downloaded file has only letters and digits of ASCII,
-- dots, underscores and dashes, and it ends in `.apk`, up to the case of letters.
pub file_name_is_safe :
    (release : AppRelease)
    → (all_chars is_file_char (sanitize_asset_file_name release) ≡ true)
      × (ends_with (to_lower_case (sanitize_asset_file_name release)) ".apk" ≡ true)
unfolding sanitize_asset_file_name
file_name_is_safe release =
    let name = or_text (truthy release.asset_name) ("purrivacy-" ++ (release.version ++ ".apk")) in
    with_extension_safe (replace_chars name) (replace_chars_safe name)
