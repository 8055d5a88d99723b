-- ===== src/Users.antt =====
-- internal/auth/store.go: the users in memory.
pub mod Registration
mod Tests
use smtpd.Prelude.{Bool, true, false, Option, none, some, List, [], ◌∷◌, if◌then◌else◌}
use smtpd.Text.{Bytes}
use smtpd.Table.{lookup}

pub record User : Type 0 where
  pub username : Bytes
  pub password_hash : Bytes

pub record Store : Type 0 where
  pub users : List (Bytes × User)
  pub enabled : Bool

abbrev pub new_store : Store
new_store = record { users = []; enabled = true }

-- what Authenticate answers: (true, nil), or false with its error
pub data Answer : Type 0 where
  accepted user_not_found invalid_credentials : Answer

unfoldable pub insert : Bytes → Bytes → Store → Store
insert username hash s = record s {
  users = (username, record { username = username; password_hash = hash }) ∷ s.users;
}

-- `AddUserWithHash`; true for a nil error
unfoldable pub add_user_with_hash : Bytes → Bytes → Store → Bool × Store
unfolding insert
add_user_with_hash username hash s = elim (lookup username s.users) [
  | some u ↦ (false, s)
  | none ↦ (true, insert username hash s)
]

-- `AddUser`, with what bcrypt.GenerateFromPassword makes of the password; none is its error
unfoldable pub add_user : Bytes → Option Bytes → Store → Bool × Store
unfolding insert
add_user username generated s = elim (lookup username s.users) [
  | some u ↦ (false, s)
  | none ↦ (elim generated [ none ↦ (false, s) | some hash ↦ (true, insert username hash s) ])
]

-- `Authenticate`; `compare` is bcrypt.CompareHashAndPassword(hash, password) == nil. The comparison
-- with a dummy hash takes time, and nothing else.
unfoldable pub authenticate : (Bytes → Bytes → Bool) → Bytes → Bytes → Store → Answer
authenticate compare username password s = elim (lookup username s.users) [
  | none ↦ user_not_found
  | some u ↦ if compare u.password_hash password then accepted else invalid_credentials
]
