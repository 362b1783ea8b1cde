-- ===== src/Gateway/Auth/Routes.antt =====
-- rs-gateway/src/routes/auth.rs, with the bodies of its requests in rs-gateway/src/dto/mod.rs and
-- the table of rs-gateway/migrations/0001_create_users_table.sql.
use cex_rs.Base.{
  ℕ, zero, suc, String, Bool, not, ◌||◌, Option, none, some, List, ◌∷◌, ltb, if◌then◌else◌, ◌==◌,
  nat_eq, string_eq, Result, ok, err,
}
use cex_rs.Base.Int.{ℤ, to_u64}
use cex_rs.Base.Trim.{trim, is_blank, any}
use cex_rs.Base.Word.{add64}
use cex_rs.Shared.Requests.{SignupMsg}
use cex_rs.Shared.Replies.{BalanceReply}
use cex_rs.Gateway.Auth.{jwt_secret, Jwt, Argon2, hash_password, verify_password, User, find_user}
use cex_rs.Gateway.Routes.{Response, turn_away, issued, plain, balance_answer}
use Prim.Native.String.{len}

-- `SignupBody` and `SigninBody` have the same fields.
pub record Credentials : Type 0 where
  pub username : String
  pub password : String

-- `char::is_alphanumeric`, which Unicode's tables define, is a parameter.
unfoldable pub validate_signup : (ℕ → Bool) → Credentials → Result (Unit {0}) String
validate_signup is_alphanumeric body =
    let u = trim body.username in
    if ltb (len u) 3 || ltb 32 (len u)
    then err "Username must be between 3 and 32 characters"
    else if any (λ c. not (is_alphanumeric c || c == 95)) u
    then err "Username must contain only alphanumeric characters and underscores"
    else if ltb (len body.password) 6
    then err "Password must be at least 6 characters long"
    else ok tt

unfoldable pub validate_signin : Credentials → Result (Unit {0}) String
validate_signin body =
    if is_blank (trim body.username)
    then err "Username cannot be empty"
    else if is_blank body.password
    then err "Password cannot be empty"
    else ok tt

-- The text as a column `VARCHAR(n)` takes it: what is too long is an error, unless only spaces are.
unfoldable pub varchar : ℕ → String → Option String
varchar zero s = if any (λ c. not (c == 32)) s then none else some ""
varchar (suc n) String.[] = some ""
varchar (suc n) (String.◌∷◌ c s) = elim (varchar n s) [
  | none ↦ none
  | some t ↦ some (String.◌∷◌ c t)
]

pub data Insertion : Type 0 where
  inserted : User → Insertion
  taken : Insertion
  failed : Insertion

-- The `INSERT` of a sign-up, with the number that `BIGSERIAL` draws.
unfoldable pub insert_row : ℤ → Option String → Option String → List User → Insertion × List User
insert_row id none hash users = (failed, users)
insert_row id (some name) none users = (failed, users)
insert_row id (some name) (some hash) users = elim (find_user name users) [
  | some u ↦ (taken, users)
  | none ↦
      let u : User = record { id = id; username = name; password_hash = hash } in
      (inserted u, u ∷ users)
]

unfoldable pub insert_user : ℤ → (name hash : String) → List User → Insertion × List User
insert_user id name hash users = insert_row id (varchar 32 name) (varchar 255 hash) users

-- What a request meets: whether the database is there, the end of the task for the password, the
-- salt and the number that are drawn, and the time.
pub record Circumstances : Type 0 where
  pub connected : Bool
  pub failure : Option String
  pub salt : String
  pub id : ℤ
  pub now : ℕ

unfoldable pub insert_signup :
    Circumstances → Credentials → (hash : String) → List User → Insertion × List User
insert_signup at body hash users =
    if at.connected then insert_user at.id body.username hash users else (failed, users)

module _ (queue_id identifier : String) where
  unfoldable pub after_insert : Insertion → Result SignupMsg Response
  after_insert (inserted user) =
      ok (record { user_id = to_u64 user.id; queue_id = queue_id; identifier = identifier })
  after_insert taken = err (turn_away 401 "User already")
  after_insert failed = err (record { status = 500; body = plain "Database error" })

  -- Up to the message for the engine, with the table that is left.
  module _ (argon : Argon2) (is_alphanumeric : ℕ → Bool) where
    unfoldable pub signup_request :
        Circumstances → Credentials → List User → Result SignupMsg Response × List User
    signup_request at body users = elim (validate_signup is_alphanumeric body) [
      | err e ↦ (err (turn_away 400 e), users)
      | ok t ↦ elim (hash_password argon at.failure at.salt body.password) [
        | err e ↦ (err (record { status = 500; body = plain "Failed to hash password" }), users)
        | ok hash ↦ let (r, users') = insert_signup at body hash users in (after_insert r, users')
      ]
    ]

unfoldable pub signup_answer : BalanceReply → Response
signup_answer = balance_answer "Signed up successfully"

module _ (argon : Argon2) (jwt : Jwt) where
  unfoldable pub issue : Circumstances → User → Response
  issue at user =
      elim (jwt.encode jwt_secret (record { sub = to_u64 user.id; exp = add64 at.now 86400 })) [
        | err e ↦ record { status = 500; body = plain e }
        | ok token ↦ record { status = 200; body = issued token }
      ]

  unfoldable pub check_user : Circumstances → Credentials → Option User → Response
  check_user at body none = turn_away 401 "Incorrect credentials"
  check_user at body (some user) =
      if not (verify_password argon at.failure body.password user.password_hash)
      then turn_away 401 "Incorrect credentials"
      else issue at user

  unfoldable pub signin : Circumstances → Credentials → List User → Response
  signin at body users = elim (validate_signin body) [
    | err e ↦ turn_away 400 e
    | ok t ↦
        if at.connected
        then check_user at body (find_user body.username users)
        else record { status = 500; body = plain "Database error" }
  ]
