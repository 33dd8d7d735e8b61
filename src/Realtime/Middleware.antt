-- ===== src/Realtime/Middleware.antt =====
-- apps/realtime/middleware.py: the user of a connection. `verify` is what the token library reads
-- from a token: the user's key, or nothing where it raises.
use Prim.Native.Char.{Char, code}
use robotics_io_t_smart_auto.Base.{
  ℕ, String, not, ◌&&◌, Option, none, some, List, [], ◌∷◌, str_eq, ◌==◌, if◌then◌else◌, or_else,
  lowers_to, select, first?,
}
use robotics_io_t_smart_auto.Accounts.Models.{User}
use robotics_io_t_smart_auto.Core.Middleware.{is_blank}
use robotics_io_t_smart_auto.World.{World}

-- value.split(): the parts between blanks
abbrev pub add_char : Char → List String → List String
add_char c [] = String.◌∷◌ c "" ∷ []
add_char c (p ∷ ps) = String.◌∷◌ c p ∷ ps

abbrev pub pieces : String → List String
pieces String.[] = "" ∷ []
pieces (String.◌∷◌ c s) =
    let rest = pieces s in if is_blank (code c) then "" ∷ rest else add_char c rest

abbrev pub words : String → List String
words s = select (λ p. not (str_eq p "")) (pieces s)

-- the token of one header value, if it has the form that is asked for
abbrev pub bearer_token : List String → Option String
bearer_token (scheme ∷ token ∷ []) = if lowers_to scheme "bearer" then some token else none
bearer_token _ = none

-- the loop over the headers
unfoldable pub header_token : List (String × String) → Option String
header_token [] = none
header_token ((name, value) ∷ rest) =
    let later = header_token rest in
    if str_eq name "authorization" then or_else (bearer_token (words value)) later else later

-- _extract_token, for the first `token` of the query string
unfoldable pub extract_token : Option String → List (String × String) → Option String
unfolding header_token
extract_token (some token) headers = some token
extract_token none headers = header_token headers

-- _user_from_token
unfoldable pub user_from_token : (String → Option ℕ) → String → World → Option User
user_from_token verify token w = elim (verify token) [
  | none ↦ none
  | some id ↦ first? (λ u. u.id == id && u.is_active) w.users
]

-- JWTAuthMiddleware.__call__: an empty token is no token
unfoldable pub authenticate :
    (String → Option ℕ) → Option String → List (String × String) → World → Option User
unfolding extract_token user_from_token
authenticate verify query headers w = elim (extract_token query headers) [
  | none ↦ none
  | some token ↦ if str_eq token "" then none else user_from_token verify token w
]
