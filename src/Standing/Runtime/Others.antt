-- ===== src/Standing/Runtime/Others.antt =====
-- What `process_event` of standing/runtime.py leaves as it is in the table of active trends.
use x_dsi_cet.Base.{◌≡◌, ◌⊎◌, Option, some, All}
use x_dsi_cet.Base.Text.{Text}
use x_dsi_cet.Base.Dict.{Dict, text_key}
use x_dsi_cet.Base.Result.{Result}
use x_dsi_cet.Platform.{Platform}
use x_dsi_cet.Standing.Runtime.{Runtime, TrendEvent}

abbrev AllOf : Text → Dict Text TrendEvent → Type 0
AllOf partition d = All (λ entry. entry.1.partition_key ≡ partition) d

-- The trend under the id is what it was, or one of the partition.
abbrev pub KeptOr : Text → Option TrendEvent → Option TrendEvent → Type 0
KeptOr partition before after =
    (after ≡ before) ⊎ ((u : TrendEvent) × (after ≡ some u) × (u.partition_key ≡ partition))
