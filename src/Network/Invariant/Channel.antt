-- ===== src/Network/Invariant/Channel.antt =====
-- The handlers of the channel keep the database and the caches sane.
use samaritan_db.Prelude.{
  ℕ, refl, inl, inr, Bool, true, false, List, Bool-cases, is_some, is_empty, [], ◌∷◌, if◌then◌else◌,
}
use samaritan_db.Text.{Text}
use samaritan_db.Dict.{Dict}
use samaritan_db.Dict
use samaritan_db.Network.Invariant.{emit_all-IsSane, publish_msg-IsSane, shared, IsSane}
use samaritan_db.Network.Client.{emit, modify_app_access, Client}
use samaritan_db.Network.Channel.{
  Surroundings, gossip_data, leave_all, publish_once, on_subscription, on_pinning_server,
  handle_channel, on_unsubscription,
}
use samaritan_db.Network.Message.{show_bool}
use samaritan_db.Database.World.{
  subscribe_node_to_application, unsubscribe_node_from_application, change_pinning_server,
  gossip_write_data, db_info, ChannelMsg, shutdown, gossip_truncate_event, gossip_delete_event,
  set_network_sync_flag, gossip_access_change,
}
use samaritan_db.Database.Invariant.{removed-IsWellFormed}
use samaritan_db.Database.Gossip.{WriteDataType}

publish_once-IsSane :
    (did message : Text) (c : Client) → IsSane c → IsSane (publish_once did message c)
unfolding publish_once
publish_once-IsSane did message c h = elim (Bool-cases (c.publishes c.attempts)) [
  | inl out ↦ rw (publish_once, out) (shared h refl refl refl)
  | inr lost ↦ rw (publish_once, lost) (shared h refl refl refl)
]

-- A choice between two clients.
chosen-IsSane : (b : Bool) (c d : Client) → IsSane c → IsSane d → IsSane (if b then c else d)
chosen-IsSane true c d h g = h
chosen-IsSane false c d h g = g

module _ (around : Surroundings) where
  on_subscription-IsSane :
      (did cid : Text) (c : Client) → IsSane c → IsSane (on_subscription around did cid c)
  unfolding on_subscription
  on_subscription-IsSane did cid c h =
      chosen-IsSane (around.subscribes did) _ _
        (emit_all-IsSane _ _ (
          publish_once-IsSane did _ _ (
            shared
              (emit_all-IsSane _ _ (
                emit_all-IsSane _ _ (
                  chosen-IsSane (is_empty around.multi_addr) _ _ (shared h refl refl refl)
                    (shared h refl refl refl))))
              refl refl refl)))
        (record {
          state = removed-IsWellFormed did c.world.state h.state;
          seen = h.seen;
          window = h.window;
        })

  on_unsubscription-IsSane :
      (did : Text) (c : Client) → IsSane c → IsSane (on_unsubscription around did c)
  unfolding on_unsubscription
  on_unsubscription-IsSane did c h = elim (Bool-cases (around.unsubscribes did)) [
    | inl out ↦
        rw out (shared (publish_once-IsSane did _ _ (shared h refl refl refl)) refl refl refl)
    | inr stays ↦ rw stays (publish_once-IsSane did _ _ (shared h refl refl refl))
  ]

  leave_all-IsSane : (dids : List Text) (c : Client) → IsSane c → IsSane (leave_all around dids c)
  unfolding leave_all
  leave_all-IsSane [] c h = h
  leave_all-IsSane (did ∷ dids) c h =
      leave_all-IsSane dids _ (publish_once-IsSane did _ _ (shared h refl refl refl))

  on_pinning_server-IsSane :
      (did url : Text) (c : Client) → IsSane c → IsSane (on_pinning_server did url c)
  unfolding on_pinning_server
  on_pinning_server-IsSane did url c h = elim (Bool-cases (is_some (Dict.lookup did c.ipfs.cids))) [
    | inl served ↦
        rw (on_pinning_server, served)
          (publish_msg-IsSane _ did _
            (record { state = h.state; seen = h.seen; window = h.window }))
    | inr other ↦ rw (on_pinning_server, other) h
  ]

  gossip_data-IsSane :
      (did key value owner : Text) (t : ℕ) (kind : WriteDataType) (c : Client)
      → IsSane c
      → IsSane (gossip_data around did key value owner t kind c)
  unfolding gossip_data
  gossip_data-IsSane did key value owner t kind c h = publish_msg-IsSane _ did c h

  pub handle_channel-IsSane :
      (m : ChannelMsg) (c : Client) → IsSane c → IsSane (handle_channel around m c)
  unfolding handle_channel
  handle_channel-IsSane (set_network_sync_flag did) c h = shared h refl refl refl
  handle_channel-IsSane (gossip_write_data did key value owner t) c h =
      gossip_data-IsSane did key value owner t WriteDataType.write c h
  handle_channel-IsSane (gossip_delete_event did key owner t) c h =
      gossip_data-IsSane did key [] owner t WriteDataType.delete c h
  handle_channel-IsSane (gossip_truncate_event did owner t) c h =
      gossip_data-IsSane did [] [] owner t WriteDataType.truncate c h
  handle_channel-IsSane (gossip_access_change perm did owner t) c h =
      gossip_data-IsSane did (show_bool perm) [] owner t WriteDataType.access
        (emit (modify_app_access did owner perm) c) (shared h refl refl refl)
  handle_channel-IsSane (subscribe_node_to_application did cid) c h =
      on_subscription-IsSane did cid c h
  handle_channel-IsSane (unsubscribe_node_from_application did) c h =
      on_unsubscription-IsSane did c h
  handle_channel-IsSane (change_pinning_server did url) c h = on_pinning_server-IsSane did url c h
  handle_channel-IsSane db_info c h = h
  handle_channel-IsSane shutdown c h =
      shared (leave_all-IsSane (Dict.keys c.ipfs.cids) c h) refl refl refl
