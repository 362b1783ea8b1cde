-- ===== src/Gateway/Auth/Tests.antt =====
-- Runs of the authentication of rs-gateway/src/routes/auth.rs and rs-gateway/src/auth at concrete
-- inputs, with a token and hashes of their own.
use cex_rs.Base.{
  ℕ, ◌≡◌, refl, subst, String, Bool, true, false, ◌||◌, ◌&&◌, none, some, [], ◌∷◌, arith, leb, ◌==◌,
  nat_eq, string_eq, if◌then◌else◌, ok, err,
}
use cex_rs.Base.Int.{pos}
use cex_rs.Base.Trim.{
  is_whitespace, any, is_blank, trim, trim_start, trim_end, trim_start_matches, strip_all,
  strip_prefix,
}
use cex_rs.Shared.Requests.{SignupMsg}
use cex_rs.Gateway.Auth.{
  Claims, Jwt, IsLawful, Argon2, User, find_user, hash_password, verify_password, from_request,
  bearer_token, decode_user,
}
use cex_rs.Gateway.Auth.Routes.{
  Credentials, Circumstances, varchar, validate_signup, validate_signin, insert_signup, insert_user,
  insert_row, after_insert, signup_request, signin, check_user, issue,
}
use cex_rs.Gateway.Auth.SignedIn.{SignedIn, signin-from_request}
use cex_rs.Gateway.Auth.Accounts.{IsSound, Account, signed_up, signup-signin}
use cex_rs.Gateway.Routes.{issued}

-- One token, for the user 7 until the second 86500.
abbrev one_claim : Claims
one_claim = record { sub = 7; exp = 86500 }

abbrev one_token : Jwt
one_token = record {
  encode = λ secret c. if c.sub == 7 && c.exp == 86500 then ok "a.b.c" else err "no token";
  decode = λ secret now t. if leb now 86560 then ok one_claim else err "ExpiredSignature";
}

one_token-IsLawful : IsLawful one_token
unfolding any is_whitespace
one_token-IsLawful = record {
  reads = λ secret t claims now h early. ground (arith, h, early);
  expires = λ secret t claims now h late. ("ExpiredSignature", ground (arith, h, late));
  is_solid = λ secret t claims h.
      let e : "a.b.c" ≡ t = ground (arith, h) in
      (subst (λ x. any is_whitespace x ≡ false) e refl, subst (λ x. is_blank x ≡ false) e refl);
}

-- A password that fits the column is its own hash.
abbrev bare : Argon2
bare = record {
  hash = λ salt password. elim (varchar 255 password) [
    | none ↦ err "too long"
    | some h ↦ if h == password then ok password else err "too long"
  ];
  parses = λ stored. true;
  verifies = λ password stored. password == stored;
}

bare-IsSound : IsSound bare
bare-IsSound = record {
  parses = λ salt password h e. refl;
  verifies = λ salt password h e. ground (arith, e, string_eq.agree password h);
  fits = λ salt password h e. grind (arith, e, λ (x : String). string_eq.agree x password);
}

abbrev is_ascii : ℕ → Bool
is_ascii c = (leb 48 c && leb c 57) || (leb 65 c && leb c 90) || (leb 97 c && leb c 122)

abbrev alice : Credentials
alice = record { username = "alice_1"; password = "hunter2" }

abbrev noon : Circumstances
noon = record { connected = true; failure = none; salt = "salt"; id = pos 7; now = 100 }

abbrev alice_row : User
alice_row = record { id = pos 7; username = "alice_1"; password_hash = "hunter2" }

abbrev alice_msg : SignupMsg
alice_msg = record { user_id = 7; queue_id = "q"; identifier = "i" }

alice_users : signup_request "q" "i" bare is_ascii noon alice [] ≡ (ok alice_msg, alice_row ∷ [])
unfolding signup_request validate_signup trim trim_start trim_end is_whitespace any hash_password
    varchar insert_signup insert_user insert_row find_user after_insert
alice_users = refl

signup-signin_example : Account bare is_ascii "q" "i" one_token alice alice_msg (
    signed_up bare is_ascii "q" "i"
      ((noon, record { username = "bob"; password = "password" }) ∷ [])
      (alice_row ∷ []))
unfolding varchar
signup-signin_example =
    signup-signin bare is_ascii "q" "i" one_token bare-IsSound noon alice [] (alice_row ∷ [])
      alice_msg refl alice_users ((noon, record { username = "bob"; password = "password" }) ∷ [])

token_of_alice :
    signin bare one_token noon alice (alice_row ∷ [])
    ≡ record { status = 200; body = issued "a.b.c" }
unfolding signin validate_signin trim trim_start trim_end is_whitespace find_user check_user
    verify_password issue
token_of_alice = refl

signin-from_request_example : SignedIn bare one_token noon alice (alice_row ∷ []) "a.b.c"
signin-from_request_example =
    signin-from_request bare one_token one_token-IsLawful noon alice (alice_row ∷ []) "a.b.c"
      (omega arith) token_of_alice

-- The extractor takes the prefix away as often as it stands there, and no other form of it.
from_request_repeated : from_request one_token 0 (some "Bearer Bearer a.b.c ") ≡ ok 7
unfolding from_request bearer_token trim_start_matches strip_all strip_prefix trim trim_start
    trim_end is_whitespace decode_user
from_request_repeated = refl

-- A name that spaces surround is another one.
padded_signup :
    signup_request "q" "i" bare is_ascii
      (record noon { id = pos 8 })
      (record { username = " alice_1"; password = "hunter3" })
      (alice_row ∷ [])
    ≡ (
      ok (record { user_id = 8; queue_id = "q"; identifier = "i" }),
      record { id = pos 8; username = " alice_1"; password_hash = "hunter3" } ∷ alice_row ∷ [],
    )
unfolding signup_request validate_signup trim trim_start trim_end is_whitespace any hash_password
    varchar insert_signup insert_user insert_row find_user after_insert
padded_signup = refl
