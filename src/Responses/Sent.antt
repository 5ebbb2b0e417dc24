-- ===== src/Responses/Sent.antt =====
-- The bodies of the server's answers
-- (apps/server/src/features/session/api/sessionRoutes.ts, apps/server/src/utils/responseUtils.ts and
-- apps/server/src/features/user/application/UserService.ts). A property that is `undefined` is not
-- sent. Dates are printed by a function that is an argument.
use purrivacy_app.Prelude.{ℕ, String, Bool, Option, none, some, List, [], ◌∷◌}
use purrivacy_app.Server.Json.{
  Json, bool, str, arr, obj, Elements, no_more, element, Properties, end, property,
}
use purrivacy_app.Session.Types.{SessionResponse}
use purrivacy_app.UserKeys.Repository.{KeyRecord}
use purrivacy_app.UserKeys.Pages.{KeyPage}

unfoldable pub texts : List String → Elements
texts [] = no_more
texts (s ∷ ss) = element (str s) (texts ss)

-- `...(newRecoveryCodes ? { newRecoveryCodes } : {})`
unfoldable pub with_codes : Option (List String) → Properties → Properties
unfolding texts
with_codes none rest = rest
with_codes (some codes) rest = property "newRecoveryCodes" (arr (texts codes)) rest

-- The body of a new session's answer
unfoldable pub session_body : (ℕ → String) → SessionResponse → Option (List String) → Json
unfolding with_codes
session_body iso r codes = obj (
    property "accessToken" (str r.access_token) (
      property "refreshToken" (str r.refresh_token) (
        property "accessTokenExpiresAt" (str (iso r.access_token_expires_at)) (
          property "refreshTokenExpiresAt" (str (iso r.refresh_token_expires_at)) (
            property "mfaTrusted" (bool r.mfa_trusted) (
              property "mfaEnabled" (bool r.mfa_enabled)
                (property "sessionFamilyId" (str r.session_family_id) (with_codes codes end))))))))

-- The body of the answer to `/mfa/session/trust`, by `successWithRecoveryCodes`
unfoldable pub trust_body : Bool → Option (List String) → Json
unfolding with_codes
trust_body trusted codes = obj (property "mfaTrusted" (bool trusted) (with_codes codes end))

-- `flattenKeyRecord`
unfoldable pub key_record_body : KeyRecord → Json
key_record_body (id, key) = obj (
    property "recordId" (str id) (
      property "encryptedData" (str key.encrypted_data)
        (property "iv" (str key.iv) (property "tag" (str key.tag) end))))

unfoldable pub key_record_bodies : List KeyRecord → Elements
unfolding key_record_body
key_record_bodies [] = no_more
key_record_bodies (record_ ∷ records) =
    element (key_record_body record_) (key_record_bodies records)

unfoldable pub with_cursor : Option String → Properties
with_cursor none = end
with_cursor (some cursor) = property "nextCursor" (str cursor) end

-- The body of a page, by `getEncryptedKeyRecords`
unfoldable pub page_body : KeyPage → Json
unfolding key_record_bodies with_cursor
page_body (records, cursor) =
    obj (property "keys" (arr (key_record_bodies records)) (with_cursor cursor))
