-- ===== src/Routes/Chosen.antt =====
-- The table that FindRoutes of Windows reads, as FindContainRoute takes it.
use an_app.Base.{List, [], ◌∷◌, All}
use an_app.Routes.{CustomRoute}
use an_app.Routes.Select.{HasSubnets}
use an_app.Routes.Windows.{Host}
use an_app.Routes.Windows.Cache.{IsUsable}

pub usable-HasSubnets : (h : Host) (rs : List CustomRoute) → All (IsUsable h) rs → HasSubnets rs
usable-HasSubnets h [] u = tt
usable-HasSubnets h (r ∷ rs) u = (u.0.subnet, usable-HasSubnets h rs u.1)
