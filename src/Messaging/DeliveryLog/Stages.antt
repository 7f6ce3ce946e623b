-- ===== src/Messaging/DeliveryLog/Stages.antt =====
-- A stage of a filtered list keeps the elements with a property and no others; what the membership
-- tests of the delivery log (infrastructure/postgres_delivery.rs) decide.
use ussd_polyglot.Prelude.{
  ℕ, zero, suc, ◌≡◌, ◌⊎◌, inl, inr, refl, ◌≤◌, Bool, true, Bool-cases, Option, none, some, List, [],
  ◌∷◌, get_elem?, keep_if, get_elem?-keep_if, keep_if_sound, ap, arith, if◌then◌else◌, ◌==◌,
}
use ussd_polyglot.Prelude.Dict.{nat_key}
use ussd_polyglot.Messaging.Domain.{
  MessageChannel, sms, whats_app, email, push, DeliveryStatus, queued, sent, delivered, read,
  failed, rejected, expired, cancelled,
}
use ussd_polyglot.Messaging.Handler.{status_number}
use ussd_polyglot.Messaging.DeliveryLog.{channel_number, has_channel, has_status}

-- an empty list of choices admits everything
abbrev pub Among : {A : Type 0} → List A → A → Type 0
Among xs x = (xs ≡ []) ⊎ ((i : ℕ) × (get_elem? xs i ≡ some x))

-- what a filter of each field admits
abbrev pub IsAsked : {A : Type 0} → Option A → Option A → Type 0
IsAsked asked x = (asked ≡ none) ⊎ (asked ≡ x)

abbrev pub IsFrom : Option ℕ → Option ℕ → Type 0
IsFrom start sent_at =
    (start ≡ none) ⊎ ((s : ℕ) × (t : ℕ) × (start ≡ some s) × (sent_at ≡ some t) × (s ≤ t))

abbrev pub IsTo : Option ℕ → Option ℕ → Type 0
IsTo end sent_at =
    (end ≡ none) ⊎ ((e : ℕ) × (t : ℕ) × (end ≡ some e) × (sent_at ≡ some t) × (t ≤ e))

-- a stage keeps exactly the elements with a property
pub record IsStage {A : Type 0} (P : A → Type 0) (stage : List A → List A) : Type 0 where
  pub sound :
      (xs : List A) (j : ℕ) (x : A)
      → get_elem? (stage xs) j ≡ some x
      → P x × (i : ℕ) × (get_elem? xs i ≡ some x)
  pub complete :
      (xs : List A) (i : ℕ) (x : A)
      → get_elem? xs i ≡ some x
      → P x
      → (j : ℕ) × (get_elem? (stage xs) j ≡ some x)

module _ {A : Type 0} where
  pub IsStage-all : {P : A → Type 0} → ((x : A) → P x) → IsStage P (λ xs. xs)
  IsStage-all all = record { sound = λ xs j x h. (all x, j, h); complete = λ xs i x h p. (i, h) }

  pub keep_if-IsStage :
      {P : A → Type 0} (test : A → Bool)
      → ((x : A) → test x ≡ true → P x)
      → ((x : A) → P x → test x ≡ true)
      → IsStage P (keep_if test)
  keep_if-IsStage test to from = record {
    sound = λ xs j x h.
        let (good, i, there) = keep_if_sound test xs j {x = x} h in (to x good, i, there);
    complete = λ xs i x h p. get_elem?-keep_if test xs i {x = x} h (from x p);
  }

  pub IsStage-then :
      {P Q : A → Type 0} {first second : List A → List A}
      → IsStage P first
      → IsStage Q second
      → IsStage (λ x. P x × Q x) (λ xs. second (first xs))
  IsStage-then {first = first} p q = record {
    sound = λ xs j x h.
        let (qx, i, h') = q.sound (first xs) j x h in
        let (px, k, there) = p.sound xs i x h' in ((px, qx), k, there);
    complete =
        λ xs i x h pq. let (j, h') = p.complete xs i x h pq.0 in q.complete (first xs) j x h' pq.1;
  }

channel_at : ℕ → MessageChannel
channel_at n = if n == 0 then sms else if n == 1 then whats_app else if n == 2 then email else push

channel_at-channel_number : (c : MessageChannel) → channel_at (channel_number c) ≡ c
unfolding channel_at
channel_at-channel_number sms = refl
channel_at-channel_number whats_app = refl
channel_at-channel_number email = refl
channel_at-channel_number push = refl

status_at : ℕ → DeliveryStatus
status_at n =
    if n == 0
    then queued
    else if n == 1
    then sent
    else if n == 2
    then delivered
    else if n == 3
    then read
    else if n == 4
    then failed
    else if n == 5
    then rejected
    else if n == 6
    then expired
    else cancelled

status_at-status_number : (s : DeliveryStatus) → status_at (status_number s) ≡ s
unfolding status_at
status_at-status_number queued = refl
status_at-status_number sent = refl
status_at-status_number delivered = refl
status_at-status_number read = refl
status_at-status_number failed = refl
status_at-status_number rejected = refl
status_at-status_number expired = refl
status_at-status_number cancelled = refl

channel_number_injective : (c d : MessageChannel) → channel_number c ≡ channel_number d → c ≡ d
channel_number_injective c d h =
    cc (ap channel_at h, channel_at-channel_number c, channel_at-channel_number d)

status_number_injective : (r s : DeliveryStatus) → status_number r ≡ status_number s → r ≡ s
status_number_injective r s h =
    cc (ap status_at h, status_at-status_number r, status_at-status_number s)

pub has_channel_sound :
    (cs : List MessageChannel) (c : MessageChannel)
    → has_channel cs c ≡ true
    → (i : ℕ) × (get_elem? cs i ≡ some c)
unfolding has_channel
has_channel_sound [] c h = cc
has_channel_sound (d ∷ cs) c h = elim (Bool-cases (channel_number d == channel_number c)) [
  | inl same ↦ (0, ap some (channel_number_injective d c (ground (arith, same))))
  | inr other ↦ let (i, there) = has_channel_sound cs c (ground (arith, other, h)) in (suc i, there)
]

pub has_channel_complete :
    (cs : List MessageChannel) (c : MessageChannel) (i : ℕ)
    → get_elem? cs i ≡ some c
    → has_channel cs c ≡ true
unfolding has_channel
has_channel_complete [] c i h = cc
has_channel_complete (d ∷ cs) c zero h =
    let same : d ≡ c = ground arith in ground (arith, ap channel_number same)
has_channel_complete (d ∷ cs) c (suc i) h = ground (arith, has_channel_complete cs c i h)

pub has_status_sound :
    (ss : List DeliveryStatus) (s : DeliveryStatus)
    → has_status ss s ≡ true
    → (i : ℕ) × (get_elem? ss i ≡ some s)
unfolding has_status
has_status_sound [] s h = cc
has_status_sound (r ∷ ss) s h = elim (Bool-cases (status_number r == status_number s)) [
  | inl same ↦ (0, ap some (status_number_injective r s (ground (arith, same))))
  | inr other ↦ let (i, there) = has_status_sound ss s (ground (arith, other, h)) in (suc i, there)
]

pub has_status_complete :
    (ss : List DeliveryStatus) (s : DeliveryStatus) (i : ℕ)
    → get_elem? ss i ≡ some s
    → has_status ss s ≡ true
unfolding has_status
has_status_complete [] s i h = cc
has_status_complete (r ∷ ss) s zero h =
    let same : r ≡ s = ground arith in ground (arith, ap status_number same)
has_status_complete (r ∷ ss) s (suc i) h = ground (arith, has_status_complete ss s i h)
