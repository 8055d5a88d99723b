-- ===== src/Users/Registration.antt =====
-- internal/auth/store.go: users that are added one after the other.
use mathlib.Core.Option.{some-injective}
use smtpd.Prelude.{
  ◌≡◌, refl, Bool, true, false, Option, none, some, List, [], ◌∷◌, arith, if◌then◌else◌, Bool-cases,
  inl, inr,
}
use smtpd.Text.{Bytes, bytes_eq, bytes_eq_refl, eq_of_bytes_eq}
use smtpd.Table.{lookup}
use smtpd.Users.{
  User, Store, Answer, accepted, user_not_found, invalid_credentials, insert, add_user_with_hash,
  add_user, authenticate,
}

-- a call that adds a user
pub data Addition : Type 0 where
  by_password : Bytes → Option Bytes → Addition
  by_hash : Bytes → Bytes → Addition

unfoldable pub add : Addition → Store → Store
add (by_password name generated) s = (add_user name generated s).1
add (by_hash name hash) s = (add_user_with_hash name hash s).1

unfoldable pub add_all : List Addition → Store → Store
unfolding add
add_all [] s = s
add_all (a ∷ more) s = add_all more (add a s)

lookup-insert :
    (name hash k : Bytes) (s : Store) (u : User)
    → lookup name s.users ≡ none
    → lookup k s.users ≡ some u
    → lookup k (insert name hash s).users ≡ some u
unfolding insert lookup
lookup-insert name hash k s u n h = elim (Bool-cases (bytes_eq name k)) [
  | inr e ↦ rw e h
  | inl e ↦ let same = eq_of_bytes_eq name k e in absurd (cc)
]

insert_unless-keeps :
    (name hash k : Bytes) (s : Store) (u : User) (o : Option User)
    → lookup name s.users ≡ o
    → lookup k s.users ≡ some u
    → lookup k
        (elim o as (λ _. Bool × Store) [
          | some v ↦ (false, s)
          | none ↦ (true, insert name hash s)
        ]).1.users
      ≡ some u
insert_unless-keeps name hash k s u none e h = lookup-insert name hash k s u e h
insert_unless-keeps name hash k s u (some v) e h = h

add-keeps :
    (a : Addition) (k : Bytes) (s : Store) (u : User)
    → lookup k s.users ≡ some u
    → lookup k (add a s).users ≡ some u
unfolding add add_user add_user_with_hash
add-keeps (by_hash name hash) k s u h = insert_unless-keeps name hash k s u _ refl h
add-keeps (by_password name none) k s u h = ground (arith, h)
add-keeps (by_password name (some hash)) k s u h = insert_unless-keeps name hash k s u _ refl h

add_all-keeps :
    (more : List Addition) (k : Bytes) (s : Store) (u : User)
    → lookup k s.users ≡ some u
    → lookup k (add_all more s).users ≡ some u
unfolding add_all
add_all-keeps [] k s u h = h
add_all-keeps (a ∷ more) k s u h = add_all-keeps more k (add a s) u (add-keeps a k s u h)

added :
    (name hash : Bytes) (s : Store)
    → (add_user name (some hash) s).0 ≡ true
    → lookup name (add_user name (some hash) s).1.users
      ≡ some (record { username = name; password_hash = hash })
unfolding add_user insert lookup
added name hash s h = go (lookup name s.users) h
  where
    go :
        (o : Option User)
        → (elim o as (λ _. Bool × Store) [
          | some u ↦ (false, s)
          | none ↦ (true, insert name hash s)
        ]).0
          ≡ true
        → lookup name
            (elim o as (λ _. Bool × Store) [
              | some u ↦ (false, s)
              | none ↦ (true, insert name hash s)
            ]).1.users
          ≡ some (record { username = name; password_hash = hash })
    go none e = rw (bytes_eq_refl name) refl
    go (some u) e = cc

-- Once AddUser has added a user, whatever users are added or refused after that, by whatever means:
-- that user is authenticated by every password that bcrypt finds to match the hash it made, and by
-- no other.
pub add_user-authenticate :
    (compare : Bytes → Bytes → Bool) (name hash : Bytes) (more : List Addition) (s : Store)
    (password : Bytes)
    → (add_user name (some hash) s).0 ≡ true
    → authenticate compare name password (add_all more (add_user name (some hash) s).1)
      ≡ (if compare hash password then accepted else invalid_credentials)
unfolding authenticate
add_user-authenticate compare name hash more s password h =
    go (lookup name (add_all more (add_user name (some hash) s).1).users) (
      add_all-keeps more name (add_user name (some hash) s).1
        (record { username = name; password_hash = hash }) (added name hash s h))
  where
    go :
        (o : Option User)
        → o ≡ some (record { username = name; password_hash = hash })
        → (elim o as (λ _. Answer) [
          | none ↦ user_not_found
          | some u ↦ if compare u.password_hash password then accepted else invalid_credentials
        ])
          ≡ (if compare hash password then accepted else invalid_credentials)
    go none e = cc
    go (some u) e = rw (some-injective u _ e) refl
