-- ===== src/Auth/Token/Tests.antt =====
-- The middleware on concrete requests.
use webcasa.Base.{
  ℕ, String, false, ◌≡◌, ◌⊎◌, Option, none, some, List, [], ◌∷◌, Any, ◌==◌, ◌=s◌, if◌then◌else◌,
  refl, has_prefix, cut_prefix, cut, lower_is, take_bytes,
}
use webcasa.Auth.Token.{
  Claims, no_row, row, TokenRow, AuthDb, Request, Identity, proceed, extract_token, bearer,
  authenticate, check_token, check_claims, check_version, validate_api_token, find_rows, find_row,
  accept_row, has_column, parse_token_scopes,
}
use webcasa.Auth.Token.Gates.{
  Lets, session_proceeds, with_version, deletion_revives, api_token_proceeds,
}

abbrev jwt : Request
jwt = record { authorization = "Bearer abc"; is_upgrade = false; protocols = ""; query_token = "" }

abbrev claims_of : ℕ → Claims
claims_of v = record { user_id = 3; username = "bob"; pending_2fa = false; token_version = v }

abbrev parse : ℕ → String → Option Claims
parse v t = if t =s "abc" then some (claims_of v) else none

abbrev hash : String → String
hash = λ t. t

abbrev unmarshal : String → Option (List String)
unmarshal text = if text =s "[hosts:write]" then some ("hosts:write" ∷ []) else none

abbrev bob : Identity
bob = record { user_id = 3; username = "bob"; scopes = none }

abbrev users : AuthDb
users = record { api_tokens = no_row; token_version = λ j. if 3 == j then row 2 else no_row }

session_proceeds_example :
    (claims : Claims) × (parse 2 (extract_token jwt) ≡ some claims)
    × (claims.pending_2fa ≡ false)
    × (bob ≡ record { user_id = claims.user_id; username = claims.username; scopes = none })
    × ((users.token_version claims.user_id ≡ row claims.token_version)
        ⊎ ((users.token_version claims.user_id ≡ no_row) × (claims.token_version ≡ 0)))
unfolding extract_token bearer cut lower_is has_prefix cut_prefix authenticate check_token
    check_claims check_version
session_proceeds_example = session_proceeds (parse 2) hash unmarshal users 50 jwt bob refl refl

-- Bob's old session, of version 0, which version 2 revoked.
deletion_revives_example :
    authenticate
      (parse 0)
      hash
      unmarshal
      (with_version (parse 0) hash unmarshal 3 no_row users)
      50
      jwt
    ≡ proceed bob
unfolding extract_token bearer cut lower_is has_prefix cut_prefix authenticate check_token
    check_claims check_version
deletion_revives_example =
    deletion_revives (parse 0) hash unmarshal users 50 jwt (claims_of 0) refl refl refl refl

abbrev api : Request
api = record {
  authorization = "Bearer wc_12345678xyz";
  is_upgrade = false;
  protocols = "";
  query_token = "";
}

abbrev stored : TokenRow
stored = record {
  id = 1;
  user_id = 3;
  prefix = "wc_12345678";
  token_hash = "wc_12345678xyz";
  permissions = "[hosts:write]";
  expires_at = some 99;
}

abbrev with_token : AuthDb
with_token = record { api_tokens = row (stored ∷ []); token_version = λ j. no_row }

abbrev token_user : Identity
token_user = record { user_id = 3; username = "api-token"; scopes = some ("hosts:write" ∷ []) }

api_token_proceeds_example :
    (rows : List TokenRow) × (with_token.api_tokens ≡ row rows)
    × Any (Lets (parse 0) hash unmarshal (extract_token api) 50 token_user) rows
unfolding extract_token bearer cut lower_is has_prefix cut_prefix authenticate check_token
    validate_api_token find_rows find_row accept_row has_column take_bytes parse_token_scopes
api_token_proceeds_example =
    api_token_proceeds (parse 0) hash unmarshal with_token 50 api token_user refl refl
