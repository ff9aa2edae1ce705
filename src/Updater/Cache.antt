-- ===== src/Updater/Cache.antt =====
-- The cached status.
use aura_cp.Prelude.{
  ℕ, ◌+◌, ◌-◌, ◌≤◌, ◌≡◌, refl, Option, none, some, arith, ltb, Bool-cases, inl, inr, if◌then◌else◌,
}
use aura_cp.Updater.{Release, Manager, refresh, status}

since : (t now ttl : ℕ) → t ≤ now → ltb (now - t) ttl ≡ ltb now (t + ttl)
since t now ttl le = ground arith

-- After a probe, whatever GitHub would answer later, the status is what that probe gave until the time
-- to live is over, an error included; from then on a new probe decides.
pub status-refresh :
    (t now : ℕ) (probe later : Option Release) (m : Manager)
    → t ≤ now
    → let m' = (refresh t probe m).1 in
      status now later m'
      ≡ (if ltb now (t + m.ttl) then refresh t probe m else refresh now later m')
unfolding refresh status
status-refresh t now none later m le = elim (Bool-cases (ltb now (t + m.ttl))) [
  | inl e ↦ rw (e, since t now m.ttl le, e) refl
  | inr e ↦ rw (e, since t now m.ttl le, e) refl
]
status-refresh t now (some r) later m le = elim (Bool-cases (ltb now (t + m.ttl))) [
  | inl e ↦ rw (e, since t now m.ttl le, e) refl
  | inr e ↦ rw (e, since t now m.ttl le, e) refl
]
