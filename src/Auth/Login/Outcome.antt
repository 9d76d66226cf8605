-- ===== src/Auth/Login/Outcome.antt =====
-- When a login opens a session, and what a wrong password costs.
use vparser.Prelude.Int.{ℤ, int_eq, int_eq_iff}
use vparser.Go.Base64.{encode, url}
use vparser.Go.Decimal.{format_int}
use vparser.Auth.Session.{session_key}
use vparser.Prelude.{
  ℕ, ◌≡◌, refl, ap, Bool, true, false, not, ◌&&◌, ◌||◌, Option, none, some, List, [], ◌∷◌, arith,
  ◌==◌, All, Bool-cases, inl, inr, if◌then◌else◌, ◌∙◌, sym, subst,
}
use vparser.Go.Base64.{Byte}
use vparser.Go.Bytes.{Bytes}
use vparser.Go.Text.{is_blank}
use vparser.Mq.Effects.{Answer, answer, error}
use vparser.Auth.{User, AuthRequest, AuthResponse, deref, normalize_username}
use vparser.Auth.Password.{needs_rehash, hash_password, password_matches}
use vparser.Auth.Password.Stored.{GivesBytes, stored_checks}
use vparser.Auth.Throttle.{login_attempt_allowed, record_login_failure, admits}
use vparser.Auth.Login.{
  Call, Services, grant, login, miss, verify, clear, rehash, verify_found, attempt, failure_key,
}

-- The sessions that the calls store: the key and the user.
abbrev pub sessions : List Call → List (Bytes × Bytes)
sessions [] = []
sessions (Call.set k v ∷ calls) = (k, v) ∷ sessions calls
sessions (c ∷ calls) = sessions calls

-- The counters that they raise.
abbrev pub counted : List Call → List Bytes
counted [] = []
counted (Call.incr k ∷ calls) = k ∷ counted calls
counted (c ∷ calls) = counted calls

-- The names that they look up.
abbrev pub lookups : List Call → List Bytes
lookups [] = []
lookups (Call.find_by_username k ∷ calls) = k ∷ lookups calls
lookups (c ∷ calls) = lookups calls

-- What an account stores after the calls.
abbrev pub password_after : ℤ → List Call → Bytes → Bytes
password_after user [] stored = stored
password_after user (Call.update_password id hashed ∷ calls) stored =
    password_after user calls (if int_eq user id then hashed else stored)
password_after user (c ∷ calls) stored = password_after user calls stored

abbrev pub token_of : Answer Bytes → Bytes
token_of (answer b) = b
token_of (error e) = []

abbrev pub is_unauthorized : Answer AuthResponse → Bool
is_unauthorized (answer r) = r.code == 401
is_unauthorized (error e) = false

abbrev pub well_formed : AuthRequest → Bool
well_formed req = (normalize_username req.username).1 && not (is_blank (deref req.password))

module _ (sha256 : Bytes → Bytes) (kdf : Bytes → Bytes → ℕ → ℕ → Bytes) (gives : GivesBytes kdf)
    (sv : Services) (salted : (salt : Bytes) → sv.salt ≡ answer salt → All Byte salt)
    (password : Bytes) where
  -- The hash matches, and is not too old.
  IsFresh : Bytes → Type 0
  IsFresh stored = (password_matches kdf password stored ≡ true) × (needs_rehash stored ≡ false)

  abbrev only : User → List (Bytes × Bytes)
  only u = (session_key sha256 (encode url (token_of sv.token)), format_int u.id) ∷ []

  -- One session, of that user under the token that was drawn; the user's password is fresh, and no
  -- other is touched.
  Opened : User → List Call → Type 0
  Opened u calls =
      (sv.token ≡ answer (token_of sv.token))
      × (sessions calls ≡ only u)
      × IsFresh (password_after u.id calls u.password)
      × ((id : ℤ) (stored : Bytes)
          → int_eq id u.id ≡ false
          → password_after id calls stored ≡ stored)

  -- The account, with its password, and what the calls did for it.
  Earned : Option User → List Call → Type 0
  Earned found calls =
      (u : User) × (found ≡ some u)
      × (password_matches kdf password u.password ≡ true)
      × Opened u calls

  granted_once :
      (u : User) (t : Answer Bytes) (k v : Bytes) (rest : List (Bytes × Bytes))
      → sessions (grant sha256 kdf sv u t).1 ≡ (k, v) ∷ rest
      → (t ≡ answer (token_of t))
        × (sessions (grant sha256 kdf sv u t).1
            ≡ (session_key sha256 (encode url (token_of t)), format_int u.id) ∷ [])
  granted_once u (error e) k v rest h = absurd (ground (arith, h))
  granted_once u (answer b) k v rest h = (refl, ground arith)

  grant-keeps :
      (u : User) (t : Answer Bytes) (id : ℤ) (stored : Bytes)
      → password_after id (grant sha256 kdf sv u t).1 stored ≡ stored
  grant-keeps u (error e) id stored = refl
  grant-keeps u (answer b) id stored = ground arith

  -- Behind the removal of the counter, and that of an old hash.
  cleared :
      (key : Bytes) (u : User) (k v : Bytes) (rest : List (Bytes × Bytes))
      → sessions (clear sha256 kdf sv key u).1 ≡ (k, v) ∷ rest
      → (sv.token ≡ answer (token_of sv.token)) × (sessions (clear sha256 kdf sv key u).1 ≡ only u)
  cleared key u k v rest h =
      let up : sv.cleared ≡ none = ground (arith, h) in
      let (drawn, same) = granted_once u sv.token k v rest (rw up at h) in (drawn, rw up same)

  clear-keeps :
      (key : Bytes) (u : User) (id : ℤ) (stored : Bytes)
      → password_after id (clear sha256 kdf sv key u).1 stored ≡ stored
  clear-keeps key u id stored = ground (arith, grant-keeps u sv.token id stored)

  update-stored :
      (id other : ℤ) (calls : List Call) (hashed stored : Bytes) (b : Bool)
      → int_eq id other ≡ b
      → password_after id (Call.update_password other hashed ∷ calls) stored
        ≡ password_after id calls (if b then hashed else stored)
  update-stored id other calls hashed stored b h =
      ap (λ c. password_after id calls (if c then hashed else stored)) h

  rehashed :
      (key : Bytes) (u : User) (salt : Answer Bytes) (k v : Bytes) (rest : List (Bytes × Bytes))
      → ((t : Bytes) → salt ≡ answer t → All Byte t)
      → sessions (rehash sha256 kdf sv key password u salt).1 ≡ (k, v) ∷ rest
      → Opened u (rehash sha256 kdf sv key password u salt).1
  unfolding Opened IsFresh
  rehashed key u (error e) k v rest bytes h = absurd (ground (arith, h))
  rehashed key u (answer t) k v rest bytes h =
      let up : sv.updated ≡ none = ground (arith, h) in
      let (drawn, same) = cleared key u k v rest (rw up at h) in
      let (_, matches, fresh) = stored_checks kdf gives t password password (bytes t refl) in
      let hashed = hash_password kdf t password in
      let calls = (clear sha256 kdf sv key u).1 in
      let stored =
        update-stored u.id u.id calls hashed u.password true ((int_eq_iff u.id u.id).1 refl)
        ∙ clear-keeps key u u.id hashed in
      (
        drawn,
        rw up same,
        (
          rw up (subst (λ p. password_matches kdf password p ≡ true) (sym stored) matches),
          rw up (subst (λ p. needs_rehash p ≡ false) (sym stored) fresh),
        ),
        λ id old other.
            rw up (update-stored id u.id calls hashed old false other ∙ clear-keeps key u id old),
      )

  verify-Earned :
      (key : Bytes) (found : Option User) (k v : Bytes) (rest : List (Bytes × Bytes))
      → sessions (verify sha256 kdf sv key password found).1 ≡ (k, v) ∷ rest
      → Earned found (verify sha256 kdf sv key password found).1
  unfolding miss record_login_failure Earned Opened IsFresh
  verify-Earned key none k v rest h = absurd (ground (arith, h))
  verify-Earned key (some u) k v rest h =
      elim (Bool-cases (password_matches kdf password u.password)) [
        | inr wrong ↦ absurd (ground (arith, wrong, h))
        | inl right ↦ elim (Bool-cases (needs_rehash u.password)) [
          | inl old ↦ (
            u,
            refl,
            right,
            rw (right, old) (rehashed key u sv.salt k v rest salted (rw (right, old) at h)),
          )
          | inr fine ↦
              let (drawn, same) = cleared key u k v rest (rw (right, fine) at h) in
              let stays = clear-keeps key u u.id u.password in
              (
                u,
                refl,
                right,
                (
                  drawn,
                  rw (right, fine) same,
                  (rw (right, fine, stays) right, rw (right, fine, stays) fine),
                  λ id stored other. rw (right, fine) (clear-keeps key u id stored),
                ),
              )
        ]
      ]

  -- The same of what is found.
  Granted : Answer (Option User) → List Call → Type 0
  Granted answered calls =
      (u : User) × (answered ≡ answer (some u))
      × (password_matches kdf password u.password ≡ true)
      × Opened u calls

  verify_found-Granted :
      (key : Bytes) (r : Answer (Option User)) (k v : Bytes) (rest : List (Bytes × Bytes))
      → sessions (verify_found sha256 kdf sv key password r).1 ≡ (k, v) ∷ rest
      → Granted r (verify_found sha256 kdf sv key password r).1
  unfolding Granted Earned
  verify_found-Granted key (error e) k v rest h = absurd (ground (arith, h))
  verify_found-Granted key (answer found) k v rest h =
      let (u, same, right, opened) = verify-Earned key found k v rest h in
      (u, ap answer same, right, opened)

  attempt-Granted :
      (username : Bytes) (r : Answer Bool × Bool) (k v : Bytes) (rest : List (Bytes × Bytes))
      → sessions (attempt sha256 kdf sv username password r).1 ≡ (k, v) ∷ rest
      → (admits r ≡ true) × Granted sv.user (attempt sha256 kdf sv username password r).1
  unfolding Granted Opened IsFresh
  attempt-Granted username (error e, deleted) k v rest h = absurd (ground (arith, h))
  attempt-Granted username (answer false, true) k v rest h = absurd (ground (arith, h))
  attempt-Granted username (answer false, false) k v rest h = absurd (ground (arith, h))
  attempt-Granted username (answer true, true) k v rest h =
      (refl, verify_found-Granted (failure_key username) sv.user k v rest h)
  attempt-Granted username (answer true, false) k v rest h =
      (refl, verify_found-Granted (failure_key username) sv.user k v rest h)

-- No such user, or another password.
abbrev pub is_wrong : (Bytes → Bytes → ℕ → ℕ → Bytes) → Bytes → Answer (Option User) → Bool
is_wrong kdf password (error e) = false
is_wrong kdf password (answer none) = true
is_wrong kdf password (answer (some u)) = not (password_matches kdf password u.password)

module _ (sha256 : Bytes → Bytes) (kdf : Bytes → Bytes → ℕ → ℕ → Bytes) (sv : Services)
    (req : AuthRequest) where
  -- PBKDF2 gives bytes of the length asked for, and salts are of bytes: a session is stored only where
  -- the counter of failures allows the attempt, for an account that was found and whose stored
  -- password the given one matches. It is one session, of that account under the token that was drawn.
  -- What the account then stores matches too and needs no new hash, and no other account's password
  -- is touched.
  pub session_earned :
      (k v : Bytes) (rest : List (Bytes × Bytes))
      → GivesBytes kdf
      → ((salt : Bytes) → sv.salt ≡ answer salt → All Byte salt)
      → let password = deref req.password in
        let (r, calls) = login sha256 kdf sv req in
        sessions calls ≡ (k, v) ∷ rest
        → (admits (login_attempt_allowed sv.failures) ≡ true)
          × (u : User) × (sv.user ≡ answer (some u))
          × (password_matches kdf password u.password ≡ true)
          × (sv.token ≡ answer (token_of sv.token))
          × (sessions calls
              ≡ (session_key sha256 (encode url (token_of sv.token)), format_int u.id) ∷ [])
          × (password_matches kdf password (password_after u.id calls u.password) ≡ true)
          × (needs_rehash (password_after u.id calls u.password) ≡ false)
          × ((id : ℤ) (stored : Bytes)
              → int_eq id u.id ≡ false
              → password_after id calls stored ≡ stored)
  unfolding login miss record_login_failure Granted Opened IsFresh
  session_earned k v rest gives salted h =
      let password = deref req.password in
      let username = (normalize_username req.username).0 in
      elim (Bool-cases (not (normalize_username req.username).1 || is_blank password)) [
        | inl bad ↦ absurd (ground (arith, bad, h))
        | inr good ↦
            let (allowed, (u, there, right, (drawn, one, (matches, fresh), others))) =
              attempt-Granted sha256 kdf gives sv salted password username
                (login_attempt_allowed sv.failures) k v rest (rw good at h) in
            (
              allowed,
              u,
              there,
              right,
              drawn,
              rw good one,
              rw good matches,
              rw good fresh,
              rw good others,
            )
      ]
