-- ===== src/Convergence/Repeat.antt =====
-- A ResolveCanonicalBootstrap that is sent again.
use live_route.Base.{◌≡◌, true, List, All}
use live_route.Convergence.Covered.{CoveredMirror}
use live_route.Convergence.Rows.{is_done}

abbrev AllDone : List CoveredMirror → Type 0
AllDone ms = All (λ m. is_done m ≡ true) ms
