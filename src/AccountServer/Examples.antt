-- ===== src/AccountServer/Examples.antt =====
-- A registration and what follows it.
use Account.{bind}
use flipchat_server.AccountServer.Session.{Registration, register_all, register-login}
use flipchat_server.AccountServer.{authorize, done, register, login}
use flipchat_server.Account
use flipchat_server.Base.{Bytes, bytes_eq, lookup, ok, ◌≡◌, refl, some, List, [], ◌∷◌, arith}

abbrev key : Bytes
key = 9 ∷ []

abbrev user : Bytes
user = 1 ∷ []

registered : (register (ok tt) key [] user 10 10 Account.new_in_memory).0 ≡ ok (done user)
unfolding register bind lookup
registered = refl

-- The other registrations: of another key, and of the same key again.
abbrev others : List Registration
others =
    record {
      verified = ok tt;
      pub_key = 8 ∷ [];
      display_name = [];
      new_id = 3 ∷ [];
      now = 12;
      later = 12;
    }
    ∷ record {
      verified = ok tt;
      pub_key = key;
      display_name = [];
      new_id = 4 ∷ [];
      now = 14;
      later = 14;
    }
    ∷ []

register-login_example :
    let m' = register_all others (register (ok tt) key [] user 10 10 Account.new_in_memory).1 in
    (login (ok tt) (some key) 20 30 30 m' ≡ ok (done user))
    × (authorize (ok tt) key m' ≡ ok user)
    × (register (ok tt) key [] (2 ∷ []) 30 30 m' ≡ (ok (done user), m'))
register-login_example =
    register-login key user (2 ∷ []) user 20 10 10 30 30 Account.new_in_memory others registered
      (omega arith) (omega arith)
