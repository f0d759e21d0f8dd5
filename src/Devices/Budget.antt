-- ===== src/Devices/Budget.antt =====
-- Restart budgets over runs of the device manager, kernel_rs/src/device_manager.rs.
use agentic_os.Base.{
  ℕ, ◌+◌, ◌<◌, ◌≡◌, refl, sym, ap, ◌∙◌, inl, inr, List, [], ◌∷◌, ◌++◌, true, false, Option, none,
  some, arith, Bool-cases, Option-cases, leb, ◌==◌, ◌&&◌, if◌then◌else◌, u32,
}
use agentic_os.Audit.{AuditLog}
use agentic_os.Devices.{
  running, failed, restarting, PciDevice, ManagedDevice, discover, bind, bind_all, is_at, find_mut,
  put_device, can_run, mark_running, crashed_with, decide_restart, report_found, max_restarts,
  is_restart,
}

-- The restarts that the device at an address has used up.
unfoldable pub restarts_at : List ManagedDevice → ℕ → ℕ → ℕ → ℕ
restarts_at devices b d f = elim (find_mut devices b d f) [
  | none ↦ 0
  | some dev ↦ dev.restart_count
]

restarts_at-cons :
    (dev : ManagedDevice) (devices : List ManagedDevice) (b d f : ℕ)
    → restarts_at (dev ∷ devices) b d f
      ≡ (if is_at b d f dev then dev.restart_count else restarts_at devices b d f)
unfolding restarts_at find_mut
restarts_at-cons dev devices b d f = ground arith

restarts_at-nil : (b d f : ℕ) → restarts_at [] b d f ≡ 0
unfolding restarts_at find_mut
restarts_at-nil b d f = refl

-- A device that is added with an unused budget changes no budget.
pub restarts_at-append :
    (devices : List ManagedDevice) (dev : ManagedDevice) (b d f : ℕ)
    → dev.restart_count ≡ 0
    → restarts_at (devices ++ dev ∷ []) b d f ≡ restarts_at devices b d f
restarts_at-append [] dev b d f h =
    rw (restarts_at-cons dev [] b d f) (rw h (ground (arith, restarts_at-nil b d f)))
restarts_at-append (e ∷ devices) dev b d f h =
    restarts_at-cons e (devices ++ dev ∷ []) b d f
    ∙ ap (λ n. if is_at b d f e then e.restart_count else n)
        (restarts_at-append devices dev b d f h)
    ∙ sym (restarts_at-cons e devices b d f)

pub restarts_at-discover :
    (found : List PciDevice) (devices : List ManagedDevice) (b d f : ℕ)
    → restarts_at (discover devices found) b d f ≡ restarts_at devices b d f
unfolding discover
restarts_at-discover [] devices b d f = refl
restarts_at-discover (p ∷ found) devices b d f =
    restarts_at-discover found _ b d f ∙ restarts_at-append devices _ b d f refl

bind-restarts : (dev : ManagedDevice) → (bind dev).restart_count ≡ dev.restart_count
unfolding bind
bind-restarts dev = ground arith

bind-pci : (dev : ManagedDevice) → (bind dev).pci ≡ dev.pci
unfolding bind
bind-pci dev = ground arith

pub restarts_at-bind_all :
    (devices : List ManagedDevice) (b d f : ℕ)
    → restarts_at (bind_all devices) b d f ≡ restarts_at devices b d f
unfolding bind_all
restarts_at-bind_all [] b d f = refl
restarts_at-bind_all (dev ∷ devices) b d f =
    rw (restarts_at-cons (bind dev) (bind_all devices) b d f) (
      rw (restarts_at-cons dev devices b d f)
        (rw (bind-restarts dev) (rw (bind-pci dev) (rw (restarts_at-bind_all devices b d f) refl))))

-- A write to the device at an address that keeps its identity sets that budget alone.
restarts_at-put_device :
    (devices : List ManagedDevice) (b d f : ℕ) (old new : ManagedDevice) (b' d' f' : ℕ)
    → find_mut devices b d f ≡ some old
    → new.pci ≡ old.pci
    → restarts_at (put_device devices b d f new) b' d' f'
      ≡ (if b == b' && d == d' && f == f' then new.restart_count else restarts_at devices b' d' f')
unfolding find_mut put_device
restarts_at-put_device [] b d f old new b' d' f' h same = cc
restarts_at-put_device (dev ∷ devices) b d f old new b' d' f' h same =
    elim (Bool-cases (is_at b d f dev)) [
      | inl hit ↦ rw hit (
          restarts_at-cons new devices b' d' f'
          ∙ ground (arith, same, found dev hit, restarts_at-cons dev devices b' d' f'))
      | inr miss ↦ rw miss (
          restarts_at-cons dev (put_device devices b d f new) b' d' f'
          ∙ ground (
            arith,
            restarts_at-cons dev devices b' d' f',
            restarts_at-put_device devices b d f old new b' d' f' (later miss) same,
          ))
    ]
  where
    found : (e : ManagedDevice) → is_at b d f e ≡ true → find_mut (e ∷ devices) b d f ≡ some e
    found e hit = ground arith

    later : is_at b d f dev ≡ false → find_mut devices b d f ≡ some old
    later miss = ground (arith, h)

restarts_at-found :
    (devices : List ManagedDevice) (b d f : ℕ) (dev : ManagedDevice)
    → find_mut devices b d f ≡ some dev
    → restarts_at devices b d f ≡ dev.restart_count
unfolding restarts_at
restarts_at-found devices b d f dev e = rw (restarts_at, e) refl

-- The budget of another name for the same address.
pub restarts_at-same :
    (devices : List ManagedDevice) (b d f b' d' f' : ℕ)
    → (b == b' && d == d' && f == f') ≡ true
    → restarts_at devices b d f ≡ restarts_at devices b' d' f'
restarts_at-same devices b d f b' d' f' h =
    let eb : b ≡ b' = ground arith in
    let ed : d ≡ d' = ground arith in
    let ef : f ≡ f' = ground arith in λ i. restarts_at devices (eb i) (ed i) (ef i)

-- Marking a device as running leaves every budget as it was.
pub restarts_at-mark_running :
    (devices : List ManagedDevice) (b d f b' d' f' : ℕ)
    → restarts_at (mark_running devices b d f) b' d' f' ≡ restarts_at devices b' d' f'
unfolding mark_running
restarts_at-mark_running devices b d f b' d' f' = elim (Option-cases (find_mut devices b d f)) [
  | inl e ↦ rw (mark_running, e) refl
  | inr (dev, e) ↦
      rw (mark_running, e)
        (elim (Bool-cases (can_run (dev.state))) [
          | inl c ↦ rw c (
              restarts_at-put_device devices b d f dev (record dev { state = running }) b' d' f' e
                refl
              ∙ ground (
                arith,
                restarts_at-found devices b d f dev e,
                restarts_at-same devices b d f b' d' f',
              ))
          | inr c ↦ rw c refl
        ])
]

-- What a crash at the device `dev` does to the budgets.
pub crash_found :
    (devices : List ManagedDevice) (log : AuditLog) (tid b d f : ℕ) (vector : Option ℕ)
    (dev : ManagedDevice) (b' d' f' : ℕ)
    → find_mut devices b d f ≡ some dev
    → let (after, log', approved) = report_found devices log tid b d f vector dev in
      (restarts_at after b' d' f'
        ≡ restarts_at devices b' d' f'
          + (if approved && (b == b' && d == d' && f == f') then 1 else 0))
      × (approved ≡ true → restarts_at devices b d f < max_restarts)
unfolding report_found decide_restart crashed_with is_restart
crash_found devices log tid b d f vector dev b' d' f' e =
    elim (Bool-cases (leb max_restarts dev.restart_count)) [
      | inl full ↦ rw full (
        restarts_at-put_device devices b d f dev (record dev { state = failed }) b' d' f' e refl
            ∙ ground (
              arith,
              restarts_at-found devices b d f dev e,
              restarts_at-same devices b d f b' d' f',
            ),
        λ h. ground arith,
      )
      | inr left ↦ rw left (
        restarts_at-put_device devices b d f dev
              (record dev { state = restarting; restart_count = u32 (dev.restart_count + 1) }) b' d'
              f' e refl
            ∙ ground (
              arith,
              restarts_at-found devices b d f dev e,
              restarts_at-same devices b d f b' d' f',
            ),
        λ h. ground (arith, restarts_at-found devices b d f dev e),
      )
    ]
