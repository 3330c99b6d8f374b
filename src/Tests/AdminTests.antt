-- ===== src/Tests/AdminTests.antt =====
-- The guard of the administration pages at a concrete allowlist.
use hubbub.Common.{
  ◌+◌, true, ◌&&◌, List, [], ◌∷◌, inr, some, if◌then◌else◌, ◌≡◌, ◌↔◌, refl, leb, any,
}
use hubbub.Common.Bytes.{Bytes, codes, equal, mem}
use hubbub.Common.Space.{trim_space}
use hubbub.Adminauth.{
  Identity, Provider, Guard, served, ProxyHeaders, exe_dev, exe_dev_identify, allow_set, new_guard,
  protect, permits, identity,
}
use hubbub.Adminauth.Allowed.{names, protect-served}

abbrev ascii_lower : Bytes → Bytes
ascii_lower [] = []
ascii_lower (c ∷ cs) = (if leb 65 c && leb c 90 then c + 32 else c) ∷ ascii_lower cs

abbrev admins : List Bytes
admins = codes " " ∷ codes " Ann@x.org" ∷ []

abbrev proxied : Provider ProxyHeaders
proxied = exe_dev (λ path. path)

abbrev guard : Guard ProxyHeaders
guard = record { provider = proxied; allowed = codes "ann@x.org" ∷ [] }

abbrev by_ann : ProxyHeaders
by_ann = record { header_email = codes "ANN@x.org "; header_user_id = codes "7" }

new_guard-admins : new_guard ascii_lower (some proxied) admins ≡ inr guard
unfolding new_guard allow_set equal trim_space
new_guard-admins = refl

protect-ann : protect ascii_lower guard by_ann (codes "/admin") ≡ served
unfolding protect identity permits exe_dev_identify mem equal trim_space
protect-ann = refl

protect-served_example : (protect ascii_lower guard by_ann (codes "/admin") ≡ served) ↔ (
    (id : Identity) × (proxied.identify by_ann ≡ some id)
    × (any (names ascii_lower id.email) admins ≡ true))
protect-served_example =
    protect-served ascii_lower proxied admins guard by_ann (codes "/admin") new_guard-admins
