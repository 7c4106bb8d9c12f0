-- ===== src/Domain/Types/Enums.antt =====
-- The string unions of domain/types.ts, with `===` where the source compares them.
use clickwrap.Prelude.{ℕ, ◌≡◌, ◌↔◌, true, arith, Eq, nat_eq}

pub data VersionStatus : Type 0 where
  draft published retired : VersionStatus

pub data AcceptanceMode : Type 0 where
  active passive : AcceptanceMode

-- `CustomerVersionStateValue`
pub data StateValue : Type 0 where
  pending_notification notified accepted objected expired_blocking superseded : StateValue

pub data AcceptanceMethod : Type 0 where
  active_consent tacit imported : AcceptanceMethod

pub data AcceptanceChannel : Type 0 where
  portal admin system link : AcceptanceChannel

pub data ObjectionResolution : Type 0 where
  withdrawn resolved_accepted resolved_terminated : ObjectionResolution

pub data NotificationChannel : Type 0 where
  email portal link : NotificationChannel

pub data AcceptanceLinkKind : Type 0 where
  standard permanent : AcceptanceLinkKind

abbrev status_rank : VersionStatus → ℕ
status_rank draft = 0
status_rank published = 1
status_rank retired = 2

abbrev mode_rank : AcceptanceMode → ℕ
mode_rank active = 0
mode_rank passive = 1

abbrev state_rank : StateValue → ℕ
state_rank pending_notification = 0
state_rank notified = 1
state_rank accepted = 2
state_rank objected = 3
state_rank expired_blocking = 4
state_rank superseded = 5

abbrev method_rank : AcceptanceMethod → ℕ
method_rank active_consent = 0
method_rank tacit = 1
method_rank imported = 2

abbrev channel_rank : AcceptanceChannel → ℕ
channel_rank AcceptanceChannel.portal = 0
channel_rank AcceptanceChannel.admin = 1
channel_rank AcceptanceChannel.system = 2
channel_rank AcceptanceChannel.link = 3

pub status_eq_iff :
    (a b : VersionStatus) → (nat_eq (status_rank a) (status_rank b) ≡ true) ↔ (a ≡ b)
status_eq_iff a b = (λ h. ground arith, λ h. ground arith)

pub mode_eq_iff : (a b : AcceptanceMode) → (nat_eq (mode_rank a) (mode_rank b) ≡ true) ↔ (a ≡ b)
mode_eq_iff a b = (λ h. ground arith, λ h. ground arith)

pub state_eq_iff : (a b : StateValue) → (nat_eq (state_rank a) (state_rank b) ≡ true) ↔ (a ≡ b)
state_eq_iff a b = (λ h. ground arith, λ h. ground arith)

pub method_eq_iff :
    (a b : AcceptanceMethod) → (nat_eq (method_rank a) (method_rank b) ≡ true) ↔ (a ≡ b)
method_eq_iff a b = (λ h. ground arith, λ h. ground arith)

pub channel_eq_iff :
    (a b : AcceptanceChannel) → (nat_eq (channel_rank a) (channel_rank b) ≡ true) ↔ (a ≡ b)
channel_eq_iff a b = (λ h. ground arith, λ h. ground arith)

instance abbrev pub VersionStatus_eq : Eq VersionStatus
VersionStatus_eq = record {
  beq = λ a b. nat_eq (status_rank a) (status_rank b);
  beq_iff = status_eq_iff;
}

instance abbrev pub AcceptanceMode_eq : Eq AcceptanceMode
AcceptanceMode_eq = record {
  beq = λ a b. nat_eq (mode_rank a) (mode_rank b);
  beq_iff = mode_eq_iff;
}

instance abbrev pub StateValue_eq : Eq StateValue
StateValue_eq = record { beq = λ a b. nat_eq (state_rank a) (state_rank b); beq_iff = state_eq_iff }

instance abbrev pub AcceptanceMethod_eq : Eq AcceptanceMethod
AcceptanceMethod_eq = record {
  beq = λ a b. nat_eq (method_rank a) (method_rank b);
  beq_iff = method_eq_iff;
}

instance abbrev pub AcceptanceChannel_eq : Eq AcceptanceChannel
AcceptanceChannel_eq = record {
  beq = λ a b. nat_eq (channel_rank a) (channel_rank b);
  beq_iff = channel_eq_iff;
}
