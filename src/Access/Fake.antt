-- ===== src/Access/Fake.antt =====
-- The fake reviewer of pkg/proxy/subjectaccessreview/fake, which the tests review with.
use pf9_oidc_proxy.Base.{Bool, true, false, ◌&&◌, Option, none, some, if◌then◌else◌}
use pf9_oidc_proxy.Strings.{Str, bytes, ◌==◌}
use pf9_oidc_proxy.Access.Review.{Review, Reply, answered, failed}

pub record FakeReviewer : Type 0 where
  pub error : Option Str

unfoldable pub new_fake : Option Str → FakeReviewer
new_fake e = record { error = e }

-- The conditions of `Create`, in their order.
allowed : Review → Bool
allowed req =
    if req.resource == bytes "users" && req.name == bytes "jjackson"
    then true
    else if req.resource == bytes "groups" && req.name == bytes "group3"
    then true
    else if req.resource == bytes "uids" && req.name == bytes "1-2-3-4"
    then true
    else if req.resource == bytes "userextras"
        && (req.subresource == bytes "remoteaddr" && req.name == bytes "1.2.3.4")
    then true
    else false

unfoldable pub create_fake : FakeReviewer → Review → Reply
unfolding allowed
create_fake f req = elim f.error [ some e ↦ failed e | none ↦ answered (allowed req) ]
