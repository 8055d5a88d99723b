-- ===== src/Users/Tests.antt =====
-- Two users, and the theorem on registration at a concrete input.
use smtpd.Prelude.{◌≡◌, refl, Bool, some, List, [], ◌∷◌}
use smtpd.Text.{Bytes, bytes_eq}
use smtpd.Table.{lookup}
use smtpd.Users.{accepted, new_store, add_user, authenticate}
use smtpd.Users.Registration.{Addition, by_password, by_hash, add_all, add_user-authenticate}

abbrev alice : Bytes
alice = b'a' ∷ []

abbrev bob : Bytes
bob = b'b' ∷ []

-- a hash that is the password with a byte before it
abbrev matches : Bytes → Bytes → Bool
matches hash password = bytes_eq hash (0 ∷ password)

-- another attempt to add her, and another user
abbrev later : List Addition
later = by_hash alice [] ∷ by_password bob (some (0 ∷ bob)) ∷ []

add_user-authenticate_example :
    authenticate matches alice alice (add_all later (add_user alice (some (0 ∷ alice)) new_store).1)
    ≡ accepted
unfolding bytes_eq
add_user-authenticate_example =
    add_user-authenticate matches alice (0 ∷ alice) later new_store alice
      (unfold add_user lookup in refl)
