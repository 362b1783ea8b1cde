-- ===== src/Gateway/Auth/SignedIn.antt =====
-- A token from the sign-in that issues it to the requests and connections that it opens.
use cex_rs.Base.{
  ℕ, ◌+◌, ◌≤◌, ◌<◌, ◌≡◌, refl, sym, subst, ◌∙◌, [], Bool-cases, String, true, false, Option, none,
  some, List, inl, inr, arith, nat_eq, string_eq, Result, ok, err,
}
use cex_rs.Base.HashMap.{get_or}
use cex_rs.Base.HashSet.{contains}
use cex_rs.Base.Int.{to_u64}
use cex_rs.Base.Text.{concat}
use cex_rs.Base.Trim.{trim-trim_start_matches, is_blank, is_whitespace, any}
use cex_rs.Base.Word.{u64_mod, add64, add64-eq}
use cex_rs.Shared.Ws.{WsClientMsg, WsServerMsg, auth, authenticated}
use cex_rs.Gateway.Auth.{
  Claims, jwt_secret, Jwt, IsLawful, auth_error, from_request, bearer_token, decode_user,
  verify_token, Argon2, verify_password, User, find_user,
}
use cex_rs.Gateway.Auth.Routes.{Credentials, Circumstances, issue, check_user, signin}
use cex_rs.Gateway.Hub as Hub
use cex_rs.Gateway.Hub.{BroadcasterHub}
use cex_rs.Gateway.Hub.Members.{is_of, is_of-authenticate}
use cex_rs.Gateway.Hub.Quiet.{send_to_client-Quiet}
use cex_rs.Gateway.Routes.{issued}
use cex_rs.Gateway.Session.{text, handle_auth, handle_msg, handle_text, session_step, session_event}

abbrev day : ℕ
day = 86400

module _ (argon : Argon2) (jwt : Jwt) where
  -- What the holder of the token `t` may do, and who it is.
  pub record SignedIn (at : Circumstances) (body : Credentials) (users : List User) (t : String)
      : Type 0 where
    pub user : User
    pub found : find_user body.username users ≡ some user
    pub verified : verify_password argon at.failure body.password user.password_hash ≡ true
    pub requests :
        (now : ℕ)
        → now ≤ at.now + day
        → from_request jwt now (some (concat "Bearer " t)) ≡ ok (to_u64 user.id)
    pub connections :
        (decode : String → Result WsClientMsg String) (encode : WsServerMsg → Option String)
        (now client_id : ℕ) (frame : String) (hub : BroadcasterHub)
        → now ≤ at.now + day
        → decode frame ≡ ok (auth t)
        → is_of client_id
            (to_u64 user.id)
            (session_event decode (verify_token jwt now) encode client_id (text frame) hub)
          ≡ true
    pub ends :
        (now : ℕ)
        → at.now + day + 60 < now
        → (from_request jwt now (some (concat "Bearer " t)) ≡ err auth_error)
          × (verify_token jwt now t ≡ none)

  -- What a sign-in went through that answers with a token.
  record Passed (at : Circumstances) (body : Credentials) (users : List User) (t : String)
      : Type 0 where
    user : User
    found : find_user body.username users ≡ some user
    verified : verify_password argon at.failure body.password user.password_hash ≡ true
    encoded : jwt.encode jwt_secret (record { sub = to_u64 user.id; exp = add64 at.now day }) ≡ ok t

  issue-encoded :
      (at : Circumstances) (user : User) (t : String)
      → issue argon jwt at user ≡ record { status = 200; body = issued t }
      → jwt.encode jwt_secret (record { sub = to_u64 user.id; exp = add64 at.now day }) ≡ ok t
  unfolding issue
  issue-encoded at user t h = ground (arith, h)

  check_user-Passed :
      (at : Circumstances) (body : Credentials) (users : List User) (t : String) (o : Option User)
      → find_user body.username users ≡ o
      → check_user argon jwt at body o ≡ record { status = 200; body = issued t }
      → Passed at body users t
  unfolding check_user
  check_user-Passed at body users t none p h = absurd (cc (h))
  check_user-Passed at body users t (some user) p h =
      elim (Bool-cases (verify_password argon at.failure body.password user.password_hash)) [
        | inl v ↦ record {
          user = user;
          found = p;
          verified = v;
          encoded = issue-encoded at user t (ground (arith, v, h));
        }
        | inr v ↦ absurd (ground (arith, v, h))
      ]

  signin-Passed :
      (at : Circumstances) (body : Credentials) (users : List User) (t : String)
      → signin argon jwt at body users ≡ record { status = 200; body = issued t }
      → Passed at body users t
  unfolding signin
  signin-Passed at body users t h =
      check_user-Passed at body users t (find_user body.username users) refl (ground (arith, h))

  module _ (laws : IsLawful jwt) where
    -- The extractor gets at the token of a header as clients write it.
    from_request-solid :
        (now : ℕ) (t : String)
        → any is_whitespace t ≡ false
        → is_blank t ≡ false
        → from_request jwt now (some (concat "Bearer " t)) ≡ decode_user jwt now t
    unfolding from_request bearer_token any is_whitespace
    from_request-solid now t h k =
        rw (trim-trim_start_matches "B" "earer " t refl h) (ground (arith, k))

    opened :
        (decode : String → Result WsClientMsg String) (encode : WsServerMsg → Option String)
        (now client_id user_id : ℕ) (t frame : String) (hub : BroadcasterHub)
        → decode frame ≡ ok (auth t)
        → verify_token jwt now t ≡ some user_id
        → is_of client_id user_id
            (session_event decode (verify_token jwt now) encode client_id (text frame) hub)
          ≡ true
    unfolding session_event session_step handle_text handle_msg handle_auth
    opened decode encode now client_id user_id t frame hub h k =
        rw (h, k)
          (subst (λ x. contains client_id (get_or user_id [] x) ≡ true)
            (sym
              (send_to_client-Quiet encode (authenticated user_id)
                (Hub.authenticate client_id user_id hub) client_id).user_clients)
            (ground (arith, is_of-authenticate client_id hub user_id user_id client_id)))

    decode_user-ok :
        (now : ℕ) (t : String) (claims : Claims)
        → jwt.decode jwt_secret now t ≡ ok claims
        → (decode_user jwt now t ≡ ok claims.sub) × (verify_token jwt now t ≡ some claims.sub)
    unfolding decode_user verify_token
    decode_user-ok now t claims h = (ground (arith, h), ground (arith, h))

    decode_user-err :
        (now : ℕ) (t e : String)
        → jwt.decode jwt_secret now t ≡ err e
        → (decode_user jwt now t ≡ err auth_error) × (verify_token jwt now t ≡ none)
    unfolding decode_user verify_token
    decode_user-err now t e h = (ground (arith, h), ground (arith, h))

    -- A token that a sign-in answers with is one of the user of that name whose password was given.
    -- For a day it lets requests in as that user, and a connection that shows it gets the private
    -- messages of the user. After the day and the minute that `jsonwebtoken` allows, neither takes it.
    pub signin-from_request :
        (at : Circumstances) (body : Credentials) (users : List User) (t : String)
        → at.now + day < u64_mod
        → signin argon jwt at body users ≡ record { status = 200; body = issued t }
        → SignedIn at body users t
    signin-from_request at body users t h k =
        let p = signin-Passed at body users t k in
        let claims : Claims = record { sub = to_u64 p.user.id; exp = add64 at.now day } in
        let lasts : claims.exp ≡ at.now + day = add64-eq at.now day h in
        let solid = laws.is_solid jwt_secret t claims p.encoded in
        let valid : (now : ℕ) → now ≤ at.now + day → jwt.decode jwt_secret now t ≡ ok claims =
          λ now early. laws.reads jwt_secret t claims now p.encoded (omega (arith, lasts, early)) in
        record {
          user = p.user;
          found = p.found;
          verified = p.verified;
          requests = λ now early.
              from_request-solid now t solid.0 solid.1
              ∙ (decode_user-ok now t claims (valid now early)).0;
          connections = λ decode encode now client_id frame hub early shown.
              opened decode encode now client_id (to_u64 p.user.id) t frame hub shown
                (decode_user-ok now t claims (valid now early)).1;
          ends = λ now late.
              let (e, refused) =
                laws.expires jwt_secret t claims now p.encoded (omega (arith, lasts, late)) in
              (
                from_request-solid now t solid.0 solid.1 ∙ (decode_user-err now t e refused).0,
                (decode_user-err now t e refused).1,
              );
        }
