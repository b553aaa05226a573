-- ===== src/Answers.antt =====
-- franzadapter/broker_port.go: the methods of nexus.BrokerPort that only answer.
use llingr_adapter_franz.Prelude.{GoString, Option, none, List}
use llingr_adapter_franz.Foreign.{GoError}
use llingr_adapter_franz.Effects.{RebalanceType, RebalanceInfo}
use llingr_adapter_franz.Creation.{Setup}

unfoldable pub ack_rebalance : RebalanceType → List RebalanceInfo → Option GoError
ack_rebalance rebalance_type infos = none

-- The zero value of `Response`, which is nexus', and no error.
unfoldable pub broker_query {ℓ κ} :
    {Request : Type ℓ} {Response : Type κ} (zero_value : Response)
    → Request
    → Response × Option GoError
broker_query zero_value request = (zero_value, none)

unfoldable pub consumer_group {ℓ} : {U : Type ℓ} → Setup U → GoString
consumer_group a = a.group_id
