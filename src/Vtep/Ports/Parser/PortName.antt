-- ===== src/Vtep/Ports/Parser/PortName.antt =====
-- The names that the parser gives to ports.
use govtep.Base.{ℕ, ◌≡◌, refl, Option, none, some, [], Str, str_eq}
use govtep.Vtep.Ports.Databases.{Portdb, TablePortBinding, Bindingdb}
use govtep.Vtep.Ports.Info.{Location, remote}
use govtep.Vtep.Ports.Parser.{ac_name, port_name, port_info, portbinding_parser}

untyped_name : (o : Option Str) (patch ac : Str) → port_name o [] patch ac ≡ ac
unfolding port_name str_eq
untyped_name none patch ac = refl
untyped_name (some lp) patch ac = refl

remote_name :
    (o : Option Str) (type patch : Str) (location : Location) (parent : Str) (tag : ℕ)
    → type ≡ []
    → location ≡ remote
    → port_name o type patch (ac_name type location parent tag) ≡ []
unfolding ac_name
remote_name o type patch location parent tag t l = rw (t, l) (untyped_name o patch [])

-- A remote port with no type has the empty name.
pub portbinding_parser-remote_name :
    {W : Type 0} (sb : Bindingdb W) (db : Portdb W) (row : TablePortBinding) (w : W)
    → (portbinding_parser sb db row w).0.type ≡ []
    → (portbinding_parser sb db row w).0.location ≡ remote
    → (portbinding_parser sb db row w).0.name ≡ []
unfolding portbinding_parser port_info
portbinding_parser-remote_name sb db row w t l = remote_name _ _ _ _ _ _ t l
