-- ===== src/Examples/Replicas.antt =====
-- A replica that follows two requests of its master.
use tiny_red.Base.{true, List, [], ◌∷◌, codes}
use tiny_red.Server.Types.{Request, Conn}
use tiny_red.Examples.Fixtures.{asking}

abbrev sent : List Request
sent =
    asking (codes "incr") (codes "n" ∷ [])
    ∷ asking (codes "REPLCONF") (codes "getack" ∷ codes "*" ∷ [])
    ∷ []

abbrev wire : Conn
wire = record { writable = true; written = [] }
