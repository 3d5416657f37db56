-- ===== src/Registry/Coordinator/Health.antt =====
-- What is known of a relay after any sequence of ReportRelayHealth calls.
use tunneledge.Common.{
  Text, ℕ, ◌≡◌, refl, Bool, true, false, not, ◌&&◌, ap, ◌∙◌, List, [], ◌∷◌, Bool-cases, inl, inr,
  text_eq_iff, Option, none, some, is_empty, is_empty_iff, text_eq, if◌then◌else◌, arith,
}
use tunneledge.Common.Maps.{get, get-put}
use tunneledge.Domain.{RelayInfo, RelayHealth}
use tunneledge.Registry.Coordinator.{
  get_relay_health, MemCoordinator, ensure_relay, reported, report_relay_health,
}

abbrev pub address_of : Option RelayInfo → Text
address_of none = []
address_of (some r) = r.advertise_addr

ensure_relay-address_of :
    (id : Text) (now : ℕ) (o : Option RelayInfo)
    → (ensure_relay id now o).advertise_addr ≡ address_of o
unfolding ensure_relay
ensure_relay-address_of id now none = refl
ensure_relay-address_of id now (some r) = refl

-- The arguments of one call.
pub record Report : Type 0 where
  pub relay_id : Text
  pub advertise_addr : Text
  pub health : RelayHealth
  pub now : ℕ

-- The calls, one after the other.
unfoldable pub report_all : List Report → MemCoordinator → MemCoordinator
report_all [] m = m
report_all (r ∷ rs) m =
    report_all rs (report_relay_health r.relay_id r.advertise_addr r.health r.now m).0

abbrev pub value_or {ℓ} : {A : Type ℓ} → Option A → A → A
value_or none a = a
value_or (some b) a = b

abbrev pub or_else {ℓ} : {A : Type ℓ} → Option A → Option A → Option A
or_else none o = o
or_else (some a) o = some a

-- The last address that is not empty in the reports of relay `id`.
abbrev pub last_address : Text → List Report → Option Text
last_address id [] = none
last_address id (r ∷ rs) = or_else (last_address id rs) (
    if text_eq r.relay_id id && not (is_empty r.advertise_addr)
    then some r.advertise_addr
    else none)

-- The last health in the reports of relay `id`.
abbrev pub last_health : Text → List Report → Option RelayHealth
last_health id [] = none
last_health id (r ∷ rs) =
    or_else (last_health id rs) (if text_eq r.relay_id id then some r.health else none)

last_step :
    (o : Option Text) (b : Text) (t : Bool) (c : Text)
    → value_or o (if t then b else c) ≡ value_or (or_else o (if t then some b else none)) c
last_step none b true c = refl
last_step none b false c = refl
last_step (some x) b t c = refl

last_step_health :
    (o : Option RelayHealth) (b : RelayHealth) (t : Bool) (c : Option RelayHealth)
    → or_else o (if t then some b else c) ≡ or_else (or_else o (if t then some b else none)) c
last_step_health none b true c = refl
last_step_health none b false c = refl
last_step_health (some x) b t c = refl

module _ (id : Text) (named : is_empty id ≡ false) where
  unnamed : (r : Report) → is_empty r.relay_id ≡ true → text_eq r.relay_id id ≡ false
  unnamed r e =
      ground (arith, e, named, is_empty_iff r.relay_id, is_empty_iff id, text_eq_iff r.relay_id id)

  address_of-report :
      (r : Report) (m : MemCoordinator)
      → address_of
          (get (report_relay_health r.relay_id r.advertise_addr r.health r.now m).0.relays id)
        ≡ (if text_eq r.relay_id id && not (is_empty r.advertise_addr)
            then r.advertise_addr
            else address_of (get m.relays id))
  unfolding report_relay_health reported
  address_of-report r m = elim (Bool-cases (is_empty r.relay_id)) [
    | inl e ↦ rw (e, unnamed r e) refl
    | inr e ↦ rw (e, get-put) (stored (text_eq r.relay_id id) (is_empty r.advertise_addr) refl refl)
  ]
    where
      relay : RelayInfo
      relay =
          reported (ensure_relay r.relay_id r.now (get m.relays r.relay_id)) r.advertise_addr
            r.health

      stored :
          (same bare : Bool)
          → text_eq r.relay_id id ≡ same
          → is_empty r.advertise_addr ≡ bare
          → address_of (if same then some relay else get m.relays id)
            ≡ (if same && not bare then r.advertise_addr else address_of (get m.relays id))
      stored false bare e f = refl
      stored true false e f = rw f refl
      stored true true e f = rw f (
          ensure_relay-address_of r.relay_id r.now (get m.relays r.relay_id)
          ∙ ap (λ i. address_of (get m.relays i)) ((text_eq_iff r.relay_id id).0 e))

  health-report :
      (r : Report) (m : MemCoordinator)
      → get (report_relay_health r.relay_id r.advertise_addr r.health r.now m).0.relay_health id
        ≡ (if text_eq r.relay_id id then some r.health else get m.relay_health id)
  unfolding report_relay_health
  health-report r m = elim (Bool-cases (is_empty r.relay_id)) [
    | inl e ↦ rw (e, unnamed r e) refl
    | inr e ↦ rw (e, get-put) refl
  ]

  -- After any reports, in their order, a relay with an ID has the address of its last report that brought
  -- one, or the address it had if none did, and the health of its last report, or the one it had.
  pub report_all_lem :
      (rs : List Report) (m : MemCoordinator)
      → (address_of (get (report_all rs m).relays id)
          ≡ value_or (last_address id rs) (address_of (get m.relays id)))
        × (get_relay_health id (report_all rs m)
            ≡ or_else (last_health id rs) (get_relay_health id m))
  unfolding report_all
  report_all_lem [] m = (refl, refl)
  report_all_lem (r ∷ rs) m =
      let next = (report_relay_health r.relay_id r.advertise_addr r.health r.now m).0 in
      let (address, health) = report_all_lem rs next in
      (
        address
            ∙ ap (value_or (last_address id rs)) (address_of-report r m)
            ∙ last_step (last_address id rs) _ _ _,
        health
            ∙ ap (or_else (last_health id rs)) (health-report r m)
            ∙ last_step_health (last_health id rs) _ _ _,
      )
