-- ===== src/Gateway/Auth/Accounts.antt =====
-- An account from the sign-up to a later sign-in.
use cex_rs.Base.{
  ℕ, ◌≡◌, refl, sym, ap, subst, ◌∙◌, String, Bool, true, false, Option, none, some, List, [], ◌∷◌,
  arith, nat_eq, string_eq, Result, ok, err,
}
use cex_rs.Base.Int.{ℤ, to_u64}
use cex_rs.Base.Trim.{trim, is_blank}
use cex_rs.Base.Word.{add64}
use cex_rs.Shared.Requests.{SignupMsg}
use cex_rs.Gateway.Auth.{jwt_secret, Jwt, Argon2, hash_password, verify_password, User, find_user}
use cex_rs.Gateway.Auth.Routes.{
  Credentials, Circumstances, validate_signup, validate_signin, varchar, insert_row, insert_user,
  insert_signup, after_insert, signup_request, issue, check_user, signin,
}
use cex_rs.Gateway.Routes.{Response, issued}
use Prim.Native.String.{len}

abbrev is_err : Result SignupMsg Response → Bool
is_err (ok msg) = false
is_err (err r) = true

-- A hash is one, its password has it, and it fits the column.
pub record IsSound (argon : Argon2) : Type 0 where
  pub parses : (salt password h : String) → argon.hash salt password ≡ ok h → argon.parses h ≡ true
  pub verifies :
      (salt password h : String)
      → argon.hash salt password ≡ ok h
      → argon.verifies password h ≡ true
  pub fits : (salt password h : String) → argon.hash salt password ≡ ok h → varchar 255 h ≡ some h

len-blank : (s : String) → is_blank s ≡ true → len s ≡ 0
len-blank String.[] h = refl
len-blank (String.◌∷◌ c s) h = absurd (cc (h))

-- What passes at a sign-up passes at a sign-in.
validate_signin-ok :
    (is_alphanumeric : ℕ → Bool) (body : Credentials)
    → validate_signup is_alphanumeric body ≡ ok tt
    → validate_signin body ≡ ok tt
unfolding validate_signup validate_signin
validate_signin-ok is_alphanumeric body h =
    ground (arith, h, len-blank (trim body.username), len-blank body.password)

-- A user keeps their row, and the row is found by its name.
insert_row-find_user :
    (n : String) (user : User) (id : ℤ) (name hash : Option String) (users : List User)
    → find_user n users ≡ some user
    → find_user n (insert_row id name hash users).1 ≡ some user
unfolding insert_row find_user
insert_row-find_user n user id none hash users h = h
insert_row-find_user n user id (some name) none users h = h
insert_row-find_user n user id (some name) (some hash) users h =
    ground (arith, h, string_eq.agree name n)

module _ (argon : Argon2) (is_alphanumeric : ℕ → Bool) (queue_id identifier : String) where
  abbrev sign_up : Circumstances → Credentials → List User → Result SignupMsg Response × List User
  sign_up = signup_request queue_id identifier argon is_alphanumeric

  -- The table after some sign-ups, in their order.
  abbrev pub signed_up : List (Circumstances × Credentials) → List User → List User
  signed_up [] users = users
  signed_up ((at, body) ∷ more) users = signed_up more (sign_up at body users).1

  sign_up-find_user :
      (n : String) (user : User) (at : Circumstances) (body : Credentials) (users : List User)
      → find_user n users ≡ some user
      → find_user n (sign_up at body users).1 ≡ some user
  unfolding signup_request insert_signup insert_user
  sign_up-find_user n user at body users h =
      grind (arith, h, insert_row-find_user n user at.id (varchar 32 body.username))

  signed_up-find_user :
      (n : String) (user : User) (more : List (Circumstances × Credentials)) (users : List User)
      → find_user n users ≡ some user
      → find_user n (signed_up more users) ≡ some user
  signed_up-find_user n user [] users h = h
  signed_up-find_user n user ((at, body) ∷ more) users h =
      signed_up-find_user n user more _ (sign_up-find_user n user at body users h)

  -- What a sign-up went through that made an account.
  record Made (at : Circumstances) (body : Credentials) (users users' : List User) (msg : SignupMsg)
      : Type 0 where
    hash : String
    valid : validate_signup is_alphanumeric body ≡ ok tt
    hashed : argon.hash at.salt body.password ≡ ok hash
    named : msg.user_id ≡ to_u64 at.id
    found :
        find_user body.username users'
        ≡ some (record { id = at.id; username = body.username; password_hash = hash })

  module _ (at : Circumstances) (body : Credentials) (users users' : List User) (msg : SignupMsg)
      (fits : varchar 32 body.username ≡ some body.username) where
    abbrev row_of : String → User
    row_of hash = record { id = at.id; username = body.username; password_hash = hash }

    insert_signup-found :
        (hash : String)
        → varchar 255 hash ≡ some hash
        → (after_insert queue_id identifier (insert_signup at body hash users).0) ≡ ok msg
        → (msg.user_id ≡ to_u64 at.id)
          × (find_user body.username (insert_signup at body hash users).1 ≡ some (row_of hash))
    unfolding insert_signup insert_user insert_row after_insert find_user
    insert_signup-found hash k h =
        ground (arith, h, k, fits, string_eq.agree body.username body.username)

    hash_password-ok :
        (failure : Option String) (salt password hash : String)
        → hash_password argon failure salt password ≡ ok hash
        → argon.hash salt password ≡ ok hash
    unfolding hash_password
    hash_password-ok failure salt password hash h = ground (arith, h)

    hashed-Made :
        (r : Result String String)
        → hash_password argon at.failure at.salt body.password ≡ r
        → validate_signup is_alphanumeric body ≡ ok tt
        → IsSound argon
        → sign_up at body users ≡ (ok msg, users')
        → Made at body users users' msg
    unfolding signup_request
    hashed-Made (err e) p valid sound h = absurd (ground (arith, p, valid, h))
    hashed-Made (ok hash) p valid sound h =
        let hashed = hash_password-ok at.failure at.salt body.password hash p in
        let sent : after_insert queue_id identifier (insert_signup at body hash users).0 ≡ ok msg =
          ground (arith, p, valid, h) in
        let left : (insert_signup at body hash users).1 ≡ users' = ground (arith, p, valid, h) in
        let found = insert_signup-found hash (sound.fits _ _ _ hashed) sent in
        record {
          hash = hash;
          valid = valid;
          hashed = hashed;
          named = found.0;
          found = subst (λ x. find_user body.username x ≡ some (row_of hash)) left found.1;
        }

    valid-Made :
        (v : Result (Unit {0}) String)
        → validate_signup is_alphanumeric body ≡ v
        → IsSound argon
        → sign_up at body users ≡ (ok msg, users')
        → Made at body users users' msg
    unfolding signup_request
    valid-Made (err e) p sound h = absurd (ground (arith, p, h))
    valid-Made (ok tt) p sound h = hashed-Made _ refl p sound h

  -- What an account is good for in a later table: its user signs in, and no other sign-up gets its
  -- name.
  module _ (jwt : Jwt) where
    pub record Account (body : Credentials) (msg : SignupMsg) (users : List User) : Type 0 where
      pub signs_in :
          (at : Circumstances) (t : String)
          → at.connected ≡ true
          → at.failure ≡ none
          → jwt.encode jwt_secret (record { sub = msg.user_id; exp = add64 at.now 86400 }) ≡ ok t
          → signin argon jwt at body users ≡ record { status = 200; body = issued t }
      pub is_taken :
          (at : Circumstances) (other : Credentials)
          → other.username ≡ body.username
          → (is_err (sign_up at other users).0 ≡ true) × ((sign_up at other users).1 ≡ users)

    signs_in_with :
        (at : Circumstances) (body : Credentials) (users : List User) (user : User) (t : String)
        → validate_signin body ≡ ok tt
        → find_user body.username users ≡ some user
        → argon.parses user.password_hash ≡ true
        → argon.verifies body.password user.password_hash ≡ true
        → at.connected ≡ true
        → at.failure ≡ none
        → jwt.encode jwt_secret (record { sub = to_u64 user.id; exp = add64 at.now 86400 }) ≡ ok t
        → signin argon jwt at body users ≡ record { status = 200; body = issued t }
    unfolding signin check_user issue verify_password
    signs_in_with at body users user t v f p w c n e = ground (arith, v, f, p, w, c, n, e)

    insert_signup-taken :
        (at : Circumstances) (other : Credentials) (hash : String) (users : List User) (user : User)
        → varchar 32 other.username ≡ some other.username
        → find_user other.username users ≡ some user
        → (is_err (after_insert queue_id identifier (insert_signup at other hash users).0) ≡ true)
          × ((insert_signup at other hash users).1 ≡ users)
    unfolding insert_signup insert_user insert_row after_insert
    insert_signup-taken at other hash users user f h = (ground (arith, f, h), ground (arith, f, h))

    sign_up-taken :
        (at : Circumstances) (other : Credentials) (users : List User) (user : User)
        → varchar 32 other.username ≡ some other.username
        → find_user other.username users ≡ some user
        → (is_err (sign_up at other users).0 ≡ true) × ((sign_up at other users).1 ≡ users)
    unfolding signup_request
    sign_up-taken at other users user f h =
        let refused = λ (hash : String). insert_signup-taken at other hash users user f h in
        (
          grind (arith, λ (hash : String). (refused hash).0),
          grind (arith, λ (hash : String). (refused hash).1),
        )

    -- After a sign-up, and whatever sign-ups come next, the same credentials sign in wherever the
    -- database and the task for the password do not fail and the token is made: the answer is a
    -- token for the user whom the message to the engine names. No sign-up under that name makes an
    -- account or changes the table. The username is one that its column takes as it is.
    pub signup-signin :
        IsSound argon
        → (at : Circumstances) (body : Credentials) (users users' : List User) (msg : SignupMsg)
        → varchar 32 body.username ≡ some body.username
        → sign_up at body users ≡ (ok msg, users')
        → (more : List (Circumstances × Credentials)) → Account body msg (signed_up more users')
    signup-signin sound at body users users' msg fits h more =
        let made = valid-Made at body users users' msg fits _ refl sound h in
        let found = signed_up-find_user body.username _ more users' made.found in
        record {
          signs_in = λ later t c n e.
              signs_in_with later body (signed_up more users') _ t
                (validate_signin-ok is_alphanumeric body made.valid) found
                (sound.parses _ _ _ made.hashed) (sound.verifies _ _ _ made.hashed) c n
                (ap
                    (λ (i : ℕ).
                      jwt.encode jwt_secret (record { sub = i; exp = add64 later.now 86400 }))
                    (sym made.named)
                  ∙ e);
          is_taken = λ later other same.
              sign_up-taken later other (signed_up more users') _
                (subst (λ n. varchar 32 n ≡ some n) (sym same) fits)
                (ap (λ n. find_user n (signed_up more users')) same ∙ found);
        }
