-- ===== src/Tests/Node.antt =====
-- A run of a node.
use samaritan_db.Command.Execute.{execute}
use samaritan_db.Command.{Command}
use samaritan_db.Prelude.{refl, true, arith, [], subst, ◌≡◌, ◌∷◌}
use samaritan_db.Text.{codes}
use samaritan_db.Dict.{Dict, IsMap}
use samaritan_db.Network.Invariant.Reach.{Reach-IsSane, at_start, goes_on, is_told, receives, works}
use samaritan_db.Network.Invariant.{IsSane}
use samaritan_db.Network.Client.{Client}
use samaritan_db.Network.Channel.{handle_channel}
use samaritan_db.Network.Receive.{receive_message}
use samaritan_db.Tests.Replication.{near, client_of}
use samaritan_db.Dict
use samaritan_db.Node.{executed}
use samaritan_db.Database.Invariant.Loads.{GivesMaps}
use samaritan_db.Database.World.{World, gossip_write_data}
use samaritan_db.Database.State.{new_state}
use samaritan_db.Tests.Data.{fresh, app, generous, node, sam, old, name}

-- An outside whose JSON library reads maps with one key.
generous-GivesMaps : GivesMaps generous
unfolding Dict.lookup
generous-GivesMaps = record {
  tables = λ s t read.
      let read_table : (app, record { cid = codes "Qm"; access = true }) ∷ [] ≡ t = ground arith in
      subst IsMap read_table (refl, tt);
  data_maps = λ s m read. ground arith;
}

-- A node at its start.
abbrev first_world : World
first_world = record node { state = new_state }

-- The client of that node: an application is initialized, a write of it is gossiped, and a message
-- comes that is not the database's.
abbrev initialized_world : World
initialized_world = (execute generous (Command.init app old) first_world).1

abbrev first_client : Client
first_client = record (client_of sam) { world = first_world }

abbrev gossiping_client : Client
gossiping_client =
    handle_channel near (gossip_write_data app name fresh sam 60)
      (record first_client { world = initialized_world })

abbrev told_client : Client
told_client = (receive_message near.net (codes "A") (codes "m1") fresh gossiping_client).1

Reach-IsSane_example : IsSane told_client
Reach-IsSane_example = Reach-IsSane generous generous-GivesMaps (
    goes_on
      (goes_on
        (goes_on (at_start refl refl refl)
          (works initialized_world (executed (Command.init app old) refl) refl))
        (is_told near (gossip_write_data app name fresh sam 60) refl))
      (receives near.net (codes "A") (codes "m1") fresh refl))
