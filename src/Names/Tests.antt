-- ===== src/Names/Tests.antt =====
-- Names as the nodes of a pool have them.
use indy_plenum.Prelude.{◌≡◌, refl, some}
use indy_plenum.Names.{generate_name, replica_name_to_node_name}

names :
    (generate_name "Alpha" 10 ≡ "Alpha:10")
    × (generate_name "Alpha:1" 0 ≡ "Alpha:1")
    × (replica_name_to_node_name (some "Alpha:1") ≡ some "Alpha")
    × (replica_name_to_node_name (some "Beta") ≡ some "Beta")
unfolding generate_name replica_name_to_node_name
names = (refl, refl, refl, refl)
