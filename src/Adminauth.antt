-- ===== src/Adminauth.antt =====
-- internal/adminauth: who may open the administration pages. A request is of any type R, which the
-- providers read; `strings.ToLower`, `url.QueryEscape`, `strconv.FormatInt` and the answer of the
-- Tailscale daemon are parameters.
pub mod Allowed
use hubbub.Common.{
  Bool, true, false, not, ◌&&◌, List, [], ◌∷◌, ◌++◌, ◌⊎◌, inl, inr, Option, none, some,
  if◌then◌else◌, ◌==◌,
}
use hubbub.Common.Bytes.{Bytes, codes, equal, has_prefix, mem}
use hubbub.Common.Space.{trim_space}

pub record Identity : Type 0 where
  pub email : Bytes
  pub user_id : Bytes

-- `Provider`, without the line that it logs at the start.
pub record Provider (R : Type 0) : Type 0 where
  pub identify : R → Option Identity
  pub login_url : Bytes → Bytes

pub record Guard (R : Type 0) : Type 0 where
  pub provider : Provider R
  pub allowed : List Bytes

pub data GuardError : Type 0 where
  provider_required : GuardError
  allowlist_empty : GuardError

-- What `Protect` answers: a 403 without a login page, a redirect, a 403 with the address that is
-- refused, or the handler's own answer.
pub data Protected : Type 0 where
  no_login_page : Protected
  to_login : Bytes → Protected
  not_permitted : Bytes → Protected
  served : Protected

module _ (to_lower : Bytes → Bytes) where
  abbrev pub normal : Bytes → Bytes
  normal a = to_lower (trim_space a)

  -- The loop of `NewGuard`; the set is a list.
  unfoldable pub allow_set : List Bytes → List Bytes
  allow_set [] = []
  allow_set (a ∷ more) =
      let rest = allow_set more in if equal (normal a) [] then rest else normal a ∷ rest

  abbrev pub guard_over : {R : Type 0} → Provider R → List Bytes → GuardError ⊎ Guard R
  guard_over p [] = inl allowlist_empty
  guard_over p (a ∷ more) = inr (record { provider = p; allowed = a ∷ more })

  -- `NewGuard`, where no provider is nil.
  unfoldable pub new_guard : {R : Type 0} → Option (Provider R) → List Bytes → GuardError ⊎ Guard R
  new_guard none allowed = inl provider_required
  new_guard (some p) allowed = guard_over p (allow_set allowed)

  -- `Guard.Permits`.
  unfoldable pub permits : {R : Type 0} → Guard R → Bytes → Bool
  permits g email = mem (normal email) g.allowed

  -- `Guard.Identity`: none if nobody is logged in, and else whether the identity is permitted.
  unfoldable pub identity : {R : Type 0} → Guard R → R → Option (Identity × Bool)
  identity g r = elim (g.provider.identify r) [
    | none ↦ none
    | some id ↦ some (id, permits g id.email)
  ]

  -- `Guard.Protect`, for a request with this escaped path.
  unfoldable pub protect : {R : Type 0} → Guard R → R → Bytes → Protected
  protect g r path = elim (identity g r) [
    | none ↦
        (if equal (g.provider.login_url path) []
          then no_login_page
          else to_login (g.provider.login_url path))
    | some (id, ok) ↦ (if ok then served else not_permitted id.email)
  ]

-- The headers that the exe.dev proxy sets.
pub record ProxyHeaders : Type 0 where
  pub header_email : Bytes
  pub header_user_id : Bytes

unfoldable pub exe_dev_identify : ProxyHeaders → Option Identity
exe_dev_identify r =
    if equal (trim_space r.header_email) []
    then none
    else some (record { email = trim_space r.header_email; user_id = trim_space r.header_user_id })

-- `exeDev.LoginURL`.
unfoldable pub exe_dev_login_url : (Bytes → Bytes) → Bytes → Bytes
exe_dev_login_url query_escape path =
    codes "/__exe.dev/login"
    ++ (codes "?redirect="
        ++ query_escape (if has_prefix (codes "/") path then path else codes "/" ++ path))

abbrev pub exe_dev : (Bytes → Bytes) → Provider ProxyHeaders
exe_dev query_escape = record {
  identify = exe_dev_identify;
  login_url = exe_dev_login_url query_escape;
}

-- What the daemon says of a peer address, with the id as `strconv.FormatInt` writes it.
pub record Whois : Type 0 where
  pub tags : List Bytes
  pub id : Bytes
  pub login_name : Bytes

abbrev pub person : Whois → Option Identity
person w =
    if equal (trim_space w.login_name) []
    then none
    else some (record { email = trim_space w.login_name; user_id = w.id })

abbrev pub untagged : Whois → List Bytes → Option Identity
untagged w [] = person w
untagged w (t ∷ ts) = none

-- `tailscale.Identify` of a request from a peer address; `whois` gives nothing for an answer that
-- does not come, is not 200 or does not parse.
unfoldable pub tailscale_identify : (Bytes → Option Whois) → Bytes → Option Identity
tailscale_identify whois remote_addr = elim (whois remote_addr) [
  | none ↦ none
  | some w ↦ untagged w w.tags
]

abbrev pub tailscale : (Bytes → Option Whois) → Provider Bytes
tailscale whois = record { identify = tailscale_identify whois; login_url = λ path. [] }
