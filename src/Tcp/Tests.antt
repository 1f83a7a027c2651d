-- ===== src/Tcp/Tests.antt =====
-- Runs of the TCP handlers.
use an_app.Base.{[], ◌∷◌}
use an_app.Tcp.{Address}

abbrev client : Address
client = (10 ∷ 0 ∷ 0 ∷ 9 ∷ [], 4000)

abbrev server : Address
server = (1 ∷ 1 ∷ 1 ∷ 1 ∷ [], 443)
