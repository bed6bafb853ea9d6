-- ===== src/Config/Tests.antt =====
-- The settings of environments that are written out.
use software_engineering_sch.Prelude.{none, some, str_eq, if◌then◌else◌}
use software_engineering_sch.Config.{Env}
use software_engineering_sch.Config.Github.{documented_key}

abbrev unset : Env
unset key = none

-- The documented variable, set to five minutes.
abbrev documented : Env
documented key = if str_eq key documented_key then some "300" else none
