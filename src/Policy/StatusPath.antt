-- ===== src/Policy/StatusPath.antt =====
-- What a Deal's status can become by any number of allowed transitions.
use fresko_universe.Prelude.{◌≡◌, true, arith}
use fresko_universe.Data.{DealStatus, is_status}
use fresko_universe.Policy.{may_follow}

-- `t` is reached from `s` by allowed transitions, each by the one before.
pub data StatusPath (s : DealStatus) : DealStatus → Type 0 where
  stay : StatusPath s s
  move : {t u : DealStatus} → StatusPath s t → may_follow t u ≡ true → StatusPath s u

pub StatusPath-trans : {s t u : DealStatus} → StatusPath s t → StatusPath t u → StatusPath s u
StatusPath-trans p stay = p
StatusPath-trans p (move q h) = move (StatusPath-trans p q) h

pub is_status-eq : (s t : DealStatus) → is_status s t ≡ true → s ≡ t
is_status-eq s t h = ground arith
