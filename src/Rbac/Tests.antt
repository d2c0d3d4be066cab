-- ===== src/Rbac/Tests.antt =====
-- The theorems at concrete inputs.
use ninai.Base.{List, [], true, ◌∷◌, ◌≡◌}
use ninai.Rbac.{Capability, User, dlq_manage, dlq_view, has_capability, operator}
use ninai.Rbac.Roles.{has_capability_by_rank}

abbrev on_call : User
on_call = record { role = operator }

abbrev requeue_rights : List Capability
requeue_rights = dlq_view ∷ dlq_manage ∷ []

has_capability_by_rank_example : has_capability on_call dlq_manage ≡ true
has_capability_by_rank_example = has_capability_by_rank on_call dlq_manage
