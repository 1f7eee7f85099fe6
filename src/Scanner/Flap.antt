-- ===== src/Scanner/Flap.antt =====
-- What a listener can rely on: a visible device stays, a missing one goes at the second miss.
use ius.Base.{
  ℕ, ◌+◌, ◌<◌, ◌≡◌, refl, ap, ◌∙◌, ◌≢◌, true, false, none, some, List, [], ◌∷◌, ℕ-eq, ok, inl, inr,
  if◌then◌else◌, Option-cases, leb, length, arith, All,
}
use ius.Base.Words.{u32, IsU32}
use ius.Base.Texts.{pair-eq, pair_eq_iff}
use ius.Base.Assoc
use ius.Base.Assoc.{lookup-insert, lookup-remove}
use ius.Scanner.{
  UsbDevice, ScanObservation, DeviceScanner, observe_all, check_missed, diff_devices, scan,
  observed_port, port_of, is_current, misses_at, or_zero, detach_after_misses, Port,
}
use ius.Scanner.Validity.{IsValid, observe_all-IsValid, scan-IsValid}
use ius.Scanner.Presence.{IsHarmless, observe_all-keeps, observe_all-misses}
use ius.Scanner.Detach.{check_all-own, IsValid-Known}

-- A device whose port is seen, by observations none of which shows another device there, keeps
-- its id and its entry.
pub scan_keeps :
    (s : DeviceScanner) (current : List ScanObservation) (id : ℕ) (d : UsbDevice)
    → IsValid s
    → IsU32 (s.next_id + length current)
    → Assoc.lookup id s.devices ≡ some d
    → All (IsHarmless d) current
    → is_current current (port_of d) ≡ true
    → Assoc.lookup id (scan s (ok current)).0.devices ≡ some d
unfolding scan diff_devices check_missed
scan_keeps s current id d v small l harmless seen =
    let s' = (observe_all s current).0 in
    let v' = observe_all-IsValid s current v small in
    let l' = observe_all-keeps s current id d v small l harmless in
    let (t, before, after) =
      check_all-own current s' id d v'.is_map (IsValid-Known s' id d v' l') l' in
    after.device ∙ rw seen before.device ∙ l'

unseen :
    (current : List ScanObservation) (p : Port)
    → All (λ o. observed_port o ≢ p) current
    → is_current current p ≡ false
unseen [] p h = refl
unseen (o ∷ os) p (h, hs) = ground (arith, unseen os p hs, pair_eq_iff (observed_port o) p)

unseen-IsHarmless :
    (current : List ScanObservation) (d : UsbDevice)
    → All (λ o. observed_port o ≢ port_of d) current
    → All (IsHarmless d) current
unseen-IsHarmless [] d h = tt
unseen-IsHarmless (o ∷ os) d (h, hs) = (inl h, unseen-IsHarmless os d hs)

check_missed_own :
    (t : DeviceScanner) (id : ℕ) (d : UsbDevice)
    → d.device_id ≡ id
    → Assoc.lookup id t.devices ≡ some d
    → u32 (misses_at (port_of d) t.miss_counts + 1) ≡ misses_at (port_of d) t.miss_counts + 1
    → (Assoc.lookup id (check_missed false t d).0.devices ≡ (
        if leb detach_after_misses (misses_at (port_of d) t.miss_counts + 1) then none else some d))
      × (misses_at (port_of d) (check_missed false t d).0.miss_counts ≡ (
          if leb detach_after_misses (misses_at (port_of d) t.miss_counts + 1)
          then 0
          else misses_at (port_of d) t.miss_counts + 1))
unfolding check_missed
check_missed_own t id d own l small = ground (
  arith,
  lookup-remove d.device_id id t.devices,
  lookup-remove (port_of d) (port_of d) t.miss_counts,
  lookup-insert (port_of d) (port_of d) (u32 (misses_at (port_of d) t.miss_counts + 1))
      t.miss_counts,
  pair_eq_iff (port_of d) (port_of d),
)

misses_at-lt :
    (s : DeviceScanner) (p : Port) → IsValid s → misses_at p s.miss_counts < detach_after_misses
misses_at-lt s p v = elim (Option-cases (Assoc.lookup p s.miss_counts)) [
  | inl never ↦ rw (never, misses_at) (omega arith)
  | inr (n, e) ↦ rw (e, misses_at) (v.few_misses p n e)
]

-- A device whose port is not seen keeps its entry and counts one miss more, until the count
-- reaches the limit: then the entry is gone and the count starts again.
pub scan_missed :
    (s : DeviceScanner) (current : List ScanObservation) (id : ℕ) (d : UsbDevice)
    → IsValid s
    → IsU32 (s.next_id + length current)
    → Assoc.lookup id s.devices ≡ some d
    → All (λ o. observed_port o ≢ port_of d) current
    → (Assoc.lookup id (scan s (ok current)).0.devices ≡ (
        if leb detach_after_misses (misses_at (port_of d) s.miss_counts + 1) then none else some d))
      × (misses_at (port_of d) (scan s (ok current)).0.miss_counts ≡ (
          if leb detach_after_misses (misses_at (port_of d) s.miss_counts + 1)
          then 0
          else misses_at (port_of d) s.miss_counts + 1))
unfolding scan diff_devices
scan_missed s current id d v small l absent =
    let s' = (observe_all s current).0 in
    let v' = observe_all-IsValid s current v small in
    let l' = observe_all-keeps s current id d v small l (unseen-IsHarmless current d absent) in
    let (t, before, after) =
      check_all-own current s' id d v'.is_map (IsValid-Known s' id d v' l') l' in
    let count : misses_at (port_of d) t.miss_counts ≡ misses_at (port_of d) s.miss_counts =
      ap or_zero (before.misses ∙ observe_all-misses s current (port_of d) absent) in
    let few = misses_at-lt s (port_of d) v in
    let (gone, counted) =
      check_missed_own t id d (v.own_id id d l) (before.device ∙ l') (omega (arith, count, few)) in
    (
      after.device
          ∙ rw (unseen current (port_of d) absent) gone
          ∙ ap (λ (n : ℕ). if leb detach_after_misses (n + 1) then none else some d) count,
      ap or_zero after.misses
          ∙ rw (unseen current (port_of d) absent) counted
          ∙ ap (λ (n : ℕ). if leb detach_after_misses (n + 1) then 0 else n + 1) count,
    )

-- Two scans in a row without the port of a device that no scan had missed, which do not use up the
-- device ids: the first keeps the device, and after the second it is gone.
pub detach_at_second_miss :
    (s : DeviceScanner) (current later : List ScanObservation) (id : ℕ) (d : UsbDevice)
    → IsValid s
    → IsU32 (s.next_id + length current)
    → IsU32 ((scan s (ok current)).0.next_id + length later)
    → Assoc.lookup id s.devices ≡ some d
    → misses_at (port_of d) s.miss_counts ≡ 0
    → All (λ o. observed_port o ≢ port_of d) current
    → All (λ o. observed_port o ≢ port_of d) later
    → (Assoc.lookup id (scan s (ok current)).0.devices ≡ some d)
      × (Assoc.lookup id (scan (scan s (ok current)).0 (ok later)).0.devices ≡ none)
detach_at_second_miss s current later id d v small small' l unmissed absent absent' =
    let (kept, one) = scan_missed s current id d v small l absent in
    let kept' : Assoc.lookup id (scan s (ok current)).0.devices ≡ some d =
      kept ∙ ap (λ (n : ℕ). if leb detach_after_misses (n + 1) then none else some d) unmissed in
    let one' : misses_at (port_of d) (scan s (ok current)).0.miss_counts ≡ 1 =
      one ∙ ap (λ (n : ℕ). if leb detach_after_misses (n + 1) then 0 else n + 1) unmissed in
    let (gone, _) =
      scan_missed (scan s (ok current)).0 later id d (scan-IsValid s current v small) small' kept'
        absent' in
    (kept', gone ∙ ap (λ (n : ℕ). if leb detach_after_misses (n + 1) then none else some d) one')
