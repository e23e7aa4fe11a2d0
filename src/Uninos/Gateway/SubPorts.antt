-- ===== src/Uninos/Gateway/SubPorts.antt =====
-- The names of sub-ports.
use govtep.Golang.Decimal.{itoa}
use govtep.Base.{◌≡◌, refl, false, some, [], ◌∷◌, ◌++◌, ◌==◌, Str, All, ◌>>=◌}
use govtep.Uninos.Gateway.{GatewayObj, sub_port_of, port_of}

port_of-append :
    (port rest : Str)
    → All (λ c. (c == b'.') ≡ false) port
    → port_of (port ++ (b'.' ∷ rest)) ≡ some port
unfolding port_of ◌>>=◌
port_of-append [] rest h = refl
port_of-append (c ∷ port) rest (dot, h) = rw (dot, port_of-append port rest h) refl

-- The physical port that a removal reads from the name of a sub-port is the one of which a creation
-- made it, and the removal does not panic.
pub port_of-sub_port_of :
    (obj : GatewayObj)
    → All (λ c. (c == b'.') ≡ false) obj.physical_port
    → port_of (sub_port_of obj) ≡ some obj.physical_port
unfolding sub_port_of
port_of-sub_port_of obj h = port_of-append obj.physical_port (itoa obj.vlan) h
