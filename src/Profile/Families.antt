-- ===== src/Profile/Families.antt =====
-- The enumerations of src/network_change_delivery/architecture_contracts.py, and the transaction
-- strategies of src/network_change_delivery/profiled_planning.py, with their `is` tests. An
-- enumeration is compared by the place of its members.
use network_change_delivery.Base.{ℕ, ◌≡◌, ◌↔◌, Bool, true, arith, Eq, nat_beq}

pub data NetworkOs : Type 0 where
  iosxe ios junos : NetworkOs

pub data OperationalRole : Type 0 where
  core edge transit access : OperationalRole

pub data AutomationProfileId : Type 0 where
  cat8000v_iosxe iosv_159_3_m12 iosvl2_2020 vjunos_router : AutomationProfileId

pub data TransportFamily : Type 0 where
  ansible_network_cli junos_pyez_netconf : TransportFamily

pub data AdapterFamily : Type 0 where
  cisco_ios junos_pyez : AdapterFamily

pub data RendererFamily : Type 0 where
  cisco_ios junos_xml : RendererFamily

pub data CollectorFamily : Type 0 where
  cisco_ios_facts junos_rpc : CollectorFamily

pub data RecoveryFamily : Type 0 where
  cisco_targeted_inverse junos_commit_confirmed : RecoveryFamily

pub data ManagementService : Type 0 where
  ssh netconf : ManagementService

pub data TransactionStrategy : Type 0 where
  cisco_targeted_inverse junos_commit_confirmed : TransactionStrategy

os_rank : NetworkOs → ℕ
os_rank NetworkOs.iosxe = 0
os_rank NetworkOs.ios = 1
os_rank NetworkOs.junos = 2

unfoldable pub os_beq : NetworkOs → NetworkOs → Bool
unfolding os_rank
os_beq a b = nat_beq (os_rank a) (os_rank b)

pub os_beq_iff : (a b : NetworkOs) → (os_beq a b ≡ true) ↔ (a ≡ b)
unfolding os_beq
os_beq_iff a b = ground arith

instance abbrev pub os_eq : Eq NetworkOs
os_eq = record { beq = os_beq; beq_iff = os_beq_iff }

role_rank : OperationalRole → ℕ
role_rank OperationalRole.core = 0
role_rank OperationalRole.edge = 1
role_rank OperationalRole.transit = 2
role_rank OperationalRole.access = 3

unfoldable pub role_beq : OperationalRole → OperationalRole → Bool
unfolding role_rank
role_beq a b = nat_beq (role_rank a) (role_rank b)

pub role_beq_iff : (a b : OperationalRole) → (role_beq a b ≡ true) ↔ (a ≡ b)
unfolding role_beq
role_beq_iff a b = ground arith

instance abbrev pub role_eq : Eq OperationalRole
role_eq = record { beq = role_beq; beq_iff = role_beq_iff }

profile_rank : AutomationProfileId → ℕ
profile_rank AutomationProfileId.cat8000v_iosxe = 0
profile_rank AutomationProfileId.iosv_159_3_m12 = 1
profile_rank AutomationProfileId.iosvl2_2020 = 2
profile_rank AutomationProfileId.vjunos_router = 3

unfoldable pub profile_beq : AutomationProfileId → AutomationProfileId → Bool
unfolding profile_rank
profile_beq a b = nat_beq (profile_rank a) (profile_rank b)

pub profile_beq_iff : (a b : AutomationProfileId) → (profile_beq a b ≡ true) ↔ (a ≡ b)
unfolding profile_beq
profile_beq_iff a b = ground arith

instance abbrev pub profile_eq : Eq AutomationProfileId
profile_eq = record { beq = profile_beq; beq_iff = profile_beq_iff }

transport_rank : TransportFamily → ℕ
transport_rank TransportFamily.ansible_network_cli = 0
transport_rank TransportFamily.junos_pyez_netconf = 1

unfoldable pub transport_beq : TransportFamily → TransportFamily → Bool
unfolding transport_rank
transport_beq a b = nat_beq (transport_rank a) (transport_rank b)

pub transport_beq_iff : (a b : TransportFamily) → (transport_beq a b ≡ true) ↔ (a ≡ b)
unfolding transport_beq
transport_beq_iff a b = ground arith

instance abbrev pub transport_eq : Eq TransportFamily
transport_eq = record { beq = transport_beq; beq_iff = transport_beq_iff }

adapter_rank : AdapterFamily → ℕ
adapter_rank AdapterFamily.cisco_ios = 0
adapter_rank AdapterFamily.junos_pyez = 1

unfoldable pub adapter_beq : AdapterFamily → AdapterFamily → Bool
unfolding adapter_rank
adapter_beq a b = nat_beq (adapter_rank a) (adapter_rank b)

pub adapter_beq_iff : (a b : AdapterFamily) → (adapter_beq a b ≡ true) ↔ (a ≡ b)
unfolding adapter_beq
adapter_beq_iff a b = ground arith

instance abbrev pub adapter_eq : Eq AdapterFamily
adapter_eq = record { beq = adapter_beq; beq_iff = adapter_beq_iff }

renderer_rank : RendererFamily → ℕ
renderer_rank RendererFamily.cisco_ios = 0
renderer_rank RendererFamily.junos_xml = 1

unfoldable pub renderer_beq : RendererFamily → RendererFamily → Bool
unfolding renderer_rank
renderer_beq a b = nat_beq (renderer_rank a) (renderer_rank b)

pub renderer_beq_iff : (a b : RendererFamily) → (renderer_beq a b ≡ true) ↔ (a ≡ b)
unfolding renderer_beq
renderer_beq_iff a b = ground arith

instance abbrev pub renderer_eq : Eq RendererFamily
renderer_eq = record { beq = renderer_beq; beq_iff = renderer_beq_iff }

collector_rank : CollectorFamily → ℕ
collector_rank CollectorFamily.cisco_ios_facts = 0
collector_rank CollectorFamily.junos_rpc = 1

unfoldable pub collector_beq : CollectorFamily → CollectorFamily → Bool
unfolding collector_rank
collector_beq a b = nat_beq (collector_rank a) (collector_rank b)

pub collector_beq_iff : (a b : CollectorFamily) → (collector_beq a b ≡ true) ↔ (a ≡ b)
unfolding collector_beq
collector_beq_iff a b = ground arith

instance abbrev pub collector_eq : Eq CollectorFamily
collector_eq = record { beq = collector_beq; beq_iff = collector_beq_iff }

recovery_rank : RecoveryFamily → ℕ
recovery_rank RecoveryFamily.cisco_targeted_inverse = 0
recovery_rank RecoveryFamily.junos_commit_confirmed = 1

unfoldable pub recovery_beq : RecoveryFamily → RecoveryFamily → Bool
unfolding recovery_rank
recovery_beq a b = nat_beq (recovery_rank a) (recovery_rank b)

pub recovery_beq_iff : (a b : RecoveryFamily) → (recovery_beq a b ≡ true) ↔ (a ≡ b)
unfolding recovery_beq
recovery_beq_iff a b = ground arith

instance abbrev pub recovery_eq : Eq RecoveryFamily
recovery_eq = record { beq = recovery_beq; beq_iff = recovery_beq_iff }

service_rank : ManagementService → ℕ
service_rank ManagementService.ssh = 0
service_rank ManagementService.netconf = 1

unfoldable pub service_beq : ManagementService → ManagementService → Bool
unfolding service_rank
service_beq a b = nat_beq (service_rank a) (service_rank b)

pub service_beq_iff : (a b : ManagementService) → (service_beq a b ≡ true) ↔ (a ≡ b)
unfolding service_beq
service_beq_iff a b = ground arith

instance abbrev pub service_eq : Eq ManagementService
service_eq = record { beq = service_beq; beq_iff = service_beq_iff }

strategy_rank : TransactionStrategy → ℕ
strategy_rank TransactionStrategy.cisco_targeted_inverse = 0
strategy_rank TransactionStrategy.junos_commit_confirmed = 1

unfoldable pub strategy_beq : TransactionStrategy → TransactionStrategy → Bool
unfolding strategy_rank
strategy_beq a b = nat_beq (strategy_rank a) (strategy_rank b)

pub strategy_beq_iff : (a b : TransactionStrategy) → (strategy_beq a b ≡ true) ↔ (a ≡ b)
unfolding strategy_beq
strategy_beq_iff a b = ground arith

instance abbrev pub strategy_eq : Eq TransactionStrategy
strategy_eq = record { beq = strategy_beq; beq_iff = strategy_beq_iff }
