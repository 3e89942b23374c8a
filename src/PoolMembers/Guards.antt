-- ===== src/PoolMembers/Guards.antt =====
-- What the service of pool_members.go refuses before it makes a request.
use firezone_go.Prelude.{Option, some, List, Str, codes, ◌≡◌, refl}
use firezone_go.Errors.{GoError, err}
use firezone_go.PoolMembers.{PoolMembersService, list, replace_all, patch}
use firezone_go.Http.{World, Log}
use firezone_go.Path.{check_id}
use firezone_go.Query.{ListOptions}

-- With a refused ID of the Resource all three operations end with the error of the check and without an
-- event, whatever their other arguments are.
refused_pool_members_lem :
    (w : World) (s : PoolMembersService) (e : GoError) (opts : Option ListOptions)
    (all add remove : List Str) (log : Log)
    → check_id (codes "Resource ID") s.resource_id ≡ some e
    → (list w s opts log ≡ (err e, log))
      × (replace_all w s all log ≡ (err e, log))
      × (patch w s add remove log ≡ (err e, log))
unfolding list replace_all patch
refused_pool_members_lem w s e opts all add remove log h = (rw h refl, rw h refl, rw h refl)
