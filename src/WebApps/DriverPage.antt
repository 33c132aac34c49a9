-- ===== src/WebApps/DriverPage.antt =====
-- apps/web-driver: what the driver's page takes from the view of a dispatch (app/page.tsx), and the
-- drivers that it watches (hooks/use-nearby-watch.ts, with toNearbyRows of packages/web-shared).
use flash_bite.Prelude.{
  ℕ, String, ◌≡◌, refl, Bool, true, false, not, ◌&&◌, List, [], ◌∷◌, filter, Option, none, some,
  ltb, ◌==◌, arith, if◌then◌else◌, Result, ok, throw,
}
use flash_bite.Contracts.{DispatchView, DispatchStatus}
use flash_bite.ReadApi.Streams.{is_id}
use flash_bite.WebShared.Client.{NearbyDriver}

abbrev is_offered : DispatchStatus → Bool
is_offered DispatchStatus.offered = true
is_offered _ = false

abbrev pub is_running : DispatchStatus → Bool
is_running DispatchStatus.dispatched = true
is_running DispatchStatus.picked_up = true
is_running _ = false

-- An offer without an end has not lapsed.
abbrev pub is_open : ℕ → Option ℕ → Bool
is_open now none = true
is_open now (some expires_at) = ltb now expires_at

-- `id` is the driver's, or the order's that the driver dismissed.
abbrev pub is_offer : ℕ → Bool → String → Option String → DispatchView → Bool
is_offer now online driver_id dismissed d =
    online
    && is_offered d.status
    && is_id d.offered_driver_id driver_id
    && not (is_id dismissed d.order_id)
    && is_open now d.offer_expires_at

unfoldable pub offer : ℕ → Bool → String → Option String → Option DispatchView → Option DispatchView
offer now online driver_id dismissed none = none
offer now online driver_id dismissed (some d) =
    if is_offer now online driver_id dismissed d then some d else none

unfoldable pub job : String → Option DispatchView → Option DispatchView
job driver_id none = none
job driver_id (some d) = if is_running d.status && is_id d.driver_id driver_id then some d else none

-- `onExpire`, and the first half of `onReject`
unfoldable pub dismiss : Option DispatchView → Option String → Option String
dismiss none dismissed = dismissed
dismiss (some d) dismissed = some d.order_id

-- What is offered is no job at the same time.
pub job-offer :
    (now : ℕ) (online : Bool) (driver_id : String) (dismissed : Option String) (d v : DispatchView)
    → offer now online driver_id dismissed (some d) ≡ some v
    → job driver_id (some d) ≡ none
unfolding offer job
job-offer now online driver_id dismissed d v h = split_status d.status refl
  where
    split_status : (s : DispatchStatus) → d.status ≡ s → job driver_id (some d) ≡ none
    split_status DispatchStatus.offered e = rw (job, e) refl
    split_status DispatchStatus.delivered e = rw (job, e) refl
    split_status DispatchStatus.failed e = rw (job, e) refl
    split_status DispatchStatus.dispatched e = ground (arith, rw (offer, e) at h)
    split_status DispatchStatus.picked_up e = ground (arith, rw (offer, e) at h)

-- `toNearbyRows`
unfoldable pub to_nearby_rows : List NearbyDriver → String → List NearbyDriver
to_nearby_rows nearby self_driver_id = filter (λ d. not (d.driver_id == self_driver_id)) nearby

pub record NearbyState : Type 0 where
  pub nearby : List NearbyDriver
  pub reconnecting : Bool
  pub loading : Bool

abbrev pub idle : NearbyState
idle = record { nearby = []; reconnecting = false; loading = false }

abbrev is_empty {ℓ} : {A : Type ℓ} → List A → Bool
is_empty [] = true
is_empty (_ ∷ _) = false

-- The effect begins, when watching or not.
unfoldable pub watch : Bool → NearbyState → NearbyState
watch watching prev = if watching then record prev { loading = is_empty prev.nearby } else idle

-- The end of a tick of a page that is open; `none` is a call that threw.
unfoldable pub tick : Option (List NearbyDriver) → NearbyState → NearbyState
tick none prev = record { nearby = prev.nearby; reconnecting = true; loading = false }
tick (some fetched) prev = record { nearby = fetched; reconnecting = false; loading = false }

-- `toggle` of components/online-toggle.tsx: what the page takes the driver to be when the call of
-- `goOnline` or `goOffline` has settled.
unfoldable pub toggle : Bool → Result (Unit {0}) → Bool
toggle online (ok _) = not online
toggle online (throw e) = online
