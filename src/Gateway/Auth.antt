-- ===== src/Gateway/Auth.antt =====
-- rs-gateway/src/auth: jwt.rs, hash.rs and user.rs. The tokens, the hashes of passwords, and the
-- table of the users.
pub mod Routes
pub mod SignedIn
pub mod Accounts
pub mod Tests
use cex_rs.Base.{
  ℕ, ◌+◌, ◌≤◌, ◌<◌, ◌≡◌, String, Bool, true, false, not, ◌&&◌, ◌||◌, Option, none, some, List, [],
  ◌∷◌, if◌then◌else◌, ◌==◌, string_eq, Result, ok, err,
}
use cex_rs.Base.Int.{ℤ}
use cex_rs.Base.Text.{concat}
use cex_rs.Base.Trim.{trim, trim_start_matches, is_blank, is_whitespace, any}
use cex_rs.Gateway.Routes.{Response, turn_away}

-- `exp` counts seconds.
pub record Claims : Type 0 where
  pub sub : ℕ
  pub exp : ℕ

abbrev pub jwt_secret : String
jwt_secret = "secret"

-- `jsonwebtoken`: `encode` with the default header, and `decode` with the default validation, at a
-- time. Errors are texts.
pub record Jwt : Type 0 where
  pub encode : (secret : String) → Claims → Result String String
  pub decode : (secret : String) (now : ℕ) → String → Result Claims String

-- A token is accepted for a minute more than it says, and reads as what was encoded. It has no white
-- space, and is not empty.
pub record IsLawful (jwt : Jwt) : Type 0 where
  pub reads :
      (secret t : String) (claims : Claims) (now : ℕ)
      → jwt.encode secret claims ≡ ok t
      → now ≤ claims.exp + 60
      → jwt.decode secret now t ≡ ok claims
  pub expires :
      (secret t : String) (claims : Claims) (now : ℕ)
      → jwt.encode secret claims ≡ ok t
      → claims.exp + 60 < now
      → (e : String) × (jwt.decode secret now t ≡ err e)
  pub is_solid :
      (secret t : String) (claims : Claims)
      → jwt.encode secret claims ≡ ok t
      → (any is_whitespace t ≡ false) × (is_blank t ≡ false)

abbrev pub auth_error : Response
auth_error = turn_away 401 "Invalid or missing token"

module _ (jwt : Jwt) (now : ℕ) where
  -- What the extractor gets out of the header, where that is a text.
  unfoldable pub bearer_token : Option String → Option String
  bearer_token none = none
  bearer_token (some v) = some (trim (trim_start_matches "Bearer " v))

  unfoldable pub decode_user : String → Result ℕ Response
  decode_user token = elim (jwt.decode jwt_secret now token) [
    | ok claims ↦ ok claims.sub
    | err e ↦ err auth_error
  ]

  unfoldable pub from_request : Option String → Result ℕ Response
  from_request header = elim (bearer_token header) [
    | none ↦ err auth_error
    | some t ↦ if not (is_blank t) then decode_user t else err auth_error
  ]

  -- The `sub` of the claims: the connections use no more.
  unfoldable pub verify_token : String → Option ℕ
  verify_token token = elim (jwt.decode jwt_secret now token) [
    | ok claims ↦ some claims.sub
    | err e ↦ none
  ]

-- `argon2`, with the salt that is drawn: the text of a hash, whether a text is one, and whether a
-- password has it.
pub record Argon2 : Type 0 where
  pub hash : (salt password : String) → Result String String
  pub parses : String → Bool
  pub verifies : (password stored : String) → Bool

-- A `failure` is the text of a `JoinError`, where the task ends with one.
module _ (argon : Argon2) where
  unfoldable pub hash_password :
      (failure : Option String) (salt password : String) → Result String String
  hash_password none salt password = argon.hash salt password
  hash_password (some e) salt password = err (concat "Task execution error: " e)

  unfoldable pub verify_password : (failure : Option String) (password stored : String) → Bool
  verify_password none password stored = argon.parses stored && argon.verifies password stored
  verify_password (some e) password stored = false

-- `created_at` is left out.
pub record User : Type 0 where
  pub id : ℤ
  pub username : String
  pub password_hash : String

unfoldable pub find_user : String → List User → Option User
find_user name [] = none
find_user name (u ∷ users) =
    let rest = find_user name users in if u.username == name then some u else rest
