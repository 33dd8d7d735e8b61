-- ===== src/Core/Middleware.antt =====
-- AuditContextMiddleware of apps/core/middleware.py. The thread-local state is the two fields actor
-- and ip of World. Blanks are the ASCII ones.
use Prim.Native.Char.{Char, code}
use robotics_io_t_smart_auto.Base.{
  ℕ, String, Bool, ◌&&◌, ◌||◌, Option, none, some, str_eq, leb, ◌==◌, if◌then◌else◌, Outcome,
}
use robotics_io_t_smart_auto.World.{World}

abbrev pub is_blank : ℕ → Bool
is_blank c = c == 32 || leb 9 c && leb c 13

-- forwarded.split(",")[0]
abbrev pub before_comma : String → String
before_comma String.[] = ""
before_comma (String.◌∷◌ c s) =
    let rest = before_comma s in if code c == 44 then "" else String.◌∷◌ c rest

-- str.lstrip, str.rstrip and str.strip
abbrev pub lstrip : String → String
lstrip String.[] = ""
lstrip (String.◌∷◌ c s) = let rest = lstrip s in if is_blank (code c) then rest else String.◌∷◌ c s

-- a character before a text whose trailing blanks are gone
abbrev pub keep_front : Char → String → String
keep_front c String.[] = if is_blank (code c) then "" else String.◌∷◌ c ""
keep_front c (String.◌∷◌ d s) = String.◌∷◌ c (String.◌∷◌ d s)

abbrev pub rstrip : String → String
rstrip String.[] = ""
rstrip (String.◌∷◌ c s) = keep_front c (rstrip s)

abbrev pub strip : String → String
strip s = rstrip (lstrip s)

-- _client_ip, for HTTP_X_FORWARDED_FOR and REMOTE_ADDR
unfoldable pub client_ip : Option String → Option String → Option String
client_ip none remote = remote
client_ip (some forwarded) remote =
    if str_eq forwarded "" then remote else some (strip (before_comma forwarded))

-- __call__: `finally` clears the context, whether the response is a value or an exception
unfoldable pub audit_context {ℓ} :
    {A : Type ℓ}
    → Option ℕ
    → Option String
    → (World → Outcome A × World)
    → World
    → Outcome A × World
audit_context actor ip get_response w =
    let (r, w') = get_response (record w { actor = actor; ip = ip }) in
    (r, record w' { actor = none; ip = none })
