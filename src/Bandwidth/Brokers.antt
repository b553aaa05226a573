-- ===== src/Bandwidth/Brokers.antt =====
-- franzadapter/bandwidth.go, updateBroker: what the broker table says of each node.
use llingr_adapter_franz.Prelude.{
  ℤ, pos, leb_ℤ, int_eq, beq_ℤ_iff, ◌==◌, ◌||◌, if◌then◌else◌, is_some, Option, some, List, [], ◌∷◌,
  Map, lookup, lookup-insert, ◌≡◌, refl, ap, ◌∙◌, ◌&&◌, not, arith,
}
use llingr_adapter_franz.Bandwidth.{BrokerMetadata, BrokerInfo, broker_info, update_broker}

-- The metadata that a node's entry stands for, after the metadata seen in order: of a real broker the
-- last seen, of a seed (a negative id) the first.
abbrev pub seen : ℤ → List BrokerMetadata → Option BrokerInfo → Option BrokerInfo
seen node [] entry = entry
seen node (meta ∷ metas) entry = seen node metas (
    if meta.node_id == node && (leb_ℤ (pos 0) node || not (is_some entry))
    then some (broker_info meta)
    else entry)

unfoldable pub update_brokers : List BrokerMetadata → Map ℤ BrokerInfo → Map ℤ BrokerInfo
unfolding update_broker
update_brokers [] brokers = brokers
update_brokers (meta ∷ metas) brokers = update_brokers metas (update_broker meta brokers)

lookup-update_broker :
    (node : ℤ) (meta : BrokerMetadata) (brokers : Map ℤ BrokerInfo)
    → lookup node (update_broker meta brokers) ≡ (
        if meta.node_id == node && (leb_ℤ (pos 0) node || not (is_some (lookup node brokers)))
        then some (broker_info meta)
        else lookup node brokers)
unfolding update_broker
lookup-update_broker node meta brokers =
    ground (
      arith,
      beq_ℤ_iff meta.node_id node,
      lookup-insert meta.node_id node (broker_info meta) brokers,
    )

-- However often brokers are seen, the entry of a broker is what its last metadata says, and that of a
-- seed broker, whose id is negative, is what its first metadata says; a node that was never seen keeps
-- its entry or its absence.
pub lookup-update_brokers :
    (node : ℤ) (metas : List BrokerMetadata) (brokers : Map ℤ BrokerInfo)
    → lookup node (update_brokers metas brokers) ≡ seen node metas (lookup node brokers)
unfolding update_brokers
lookup-update_brokers node [] brokers = refl
lookup-update_brokers node (meta ∷ metas) brokers =
    lookup-update_brokers node metas (update_broker meta brokers)
    ∙ ap (seen node metas) (lookup-update_broker node meta brokers)
