-- ===== src/Policy/Names.antt =====
-- `POLICYENUM` of policy/Policy.h and its names.
use client_server.Base.{◌≡◌, refl, Bytes, codes, bytes_eq, if◌then◌else◌}

pub data PolicyEnum : Type 0 where
  sort_input no_sort_input echo_policy none : PolicyEnum

unfoldable pub from_string : Bytes → PolicyEnum
from_string name =
    if bytes_eq name (codes "SORTINPUT")
    then PolicyEnum.sort_input
    else if bytes_eq name (codes "NOSORTINPUT")
    then PolicyEnum.no_sort_input
    else if bytes_eq name (codes "ECHO")
    then PolicyEnum.echo_policy
    else PolicyEnum.none

unfoldable pub to_string : PolicyEnum → Bytes
to_string PolicyEnum.sort_input = codes "SORTINPUT"
to_string PolicyEnum.no_sort_input = codes "NOSORTINPUT"
to_string PolicyEnum.echo_policy = codes "ECHO"
to_string PolicyEnum.none = codes "Unknown"

-- Every policy is read back from its name, with Unknown read as no policy.
pub from_string-to_string : (policy : PolicyEnum) → from_string (to_string policy) ≡ policy
unfolding from_string to_string bytes_eq
from_string-to_string PolicyEnum.sort_input = refl
from_string-to_string PolicyEnum.no_sort_input = refl
from_string-to_string PolicyEnum.echo_policy = refl
from_string-to_string PolicyEnum.none = refl
