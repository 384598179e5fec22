-- ===== src/Daemon/Clock/Drift.antt =====
-- focusd/src/clock_guard.rs, clock_violation: which samples pass.
use bloc_kuntu.Common.{
  ℕ, ◌+◌, ◌*◌, ◌≤◌, ◌<◌, ◌≡◌, refl, ◌≢◌, ◌↔◌, ◌⊎◌, inl, inr, none, some, arith, ltb, if◌then◌else◌,
  ltb→lt, ltb→ge, Bool-cases,
}
use bloc_kuntu.Text.{Text, text_eq}
use bloc_kuntu.Text.Laws.{text_eq_iff}
use bloc_kuntu.Platform.{Instant}
use bloc_kuntu.Daemon.Clock.{
  ClockSample, backwards_across_reboot, uptime_backwards, drifted, apart, seconds_between,
  compare_sample,
}

-- Less than 301 seconds apart.
abbrev IsNear : Instant → Instant → Type 0
IsNear a b = (a < b + 301_000_000_000) × (b < a + 301_000_000_000)

apart-IsNear : (a b : Instant) → (apart a b ≤ 300) ↔ IsNear a b
apart-IsNear a b = (λ h. (omega arith, omega arith), λ h. omega (arith, h.0, h.1))

drift_branch :
    (n m a b : ℕ)
    → ((if ltb n m
          then some uptime_backwards
          else if ltb 300 (apart a b)
          then some drifted
          else none)
        ≡ none)
      ↔ ((m ≤ n) × IsNear a b)
drift_branch n m a b =
    let near = apart-IsNear a b in
    elim (Bool-cases (ltb n m)) [
      | inl e ↦ rw e (λ h. cc, λ h. absurd (omega (arith, ltb→lt n m e, h.0)))
      | inr e ↦ elim (Bool-cases (ltb 300 (apart a b))) [
        | inl f ↦
            rw e (rw f (λ h. cc, λ h. absurd (omega (arith, ltb→lt 300 (apart a b) f, near.1 h.1))))
        | inr f ↦ rw e (rw f (λ h. (ltb→ge n m e, near.0 (ltb→ge 300 (apart a b) f)), λ h. refl))
      ]
    ]

reboot_branch :
    (a b : ℕ)
    → ((if ltb 300 (seconds_between a b) then some backwards_across_reboot else none) ≡ none)
      ↔ (a < b + 301_000_000_000)
reboot_branch a b = elim (Bool-cases (ltb 300 (seconds_between a b))) [
  | inl e ↦ rw e (λ h. cc, λ h. absurd (omega (arith, ltb→lt 300 (seconds_between a b) e, h)))
  | inr e ↦ rw e (λ h. omega (arith, ltb→ge 300 (seconds_between a b) e), λ h. refl)
]

module _ (sample : ClockSample) (wall : Instant) (boot_id : Text) (boottime : ℕ) where
  -- What a sample must be to pass: after a reboot the clock is not 301 seconds or more behind the
  -- last one; in the same boot the uptime is not more than a second behind, and the time that has
  -- passed on the clock is less than 301 seconds away from the time that has passed on the uptime.
  abbrev pub IsHonest : Type 0
  IsHonest =
      ((boot_id ≢ sample.boot_id) × (wall < sample.wall.utc + 301_000_000_000))
      ⊎ ((boot_id ≡ sample.boot_id)
          × (boottime ≤ sample.boottime + 1000)
          × IsNear (sample.wall.utc + boottime * 1_000_000) (wall + sample.boottime * 1_000_000))

  -- A sample passes the comparison exactly when it is honest.
  pub compare_sample-none_iff : (compare_sample sample wall boot_id boottime ≡ none) ↔ IsHonest
  unfolding compare_sample
  compare_sample-none_iff = elim (Bool-cases (text_eq boot_id sample.boot_id)) [
    | inl e ↦
        let same_boot = (text_eq_iff boot_id sample.boot_id).0 e in
        let branch =
          drift_branch (sample.boottime + 1000) boottime (sample.wall.utc + boottime * 1_000_000)
            (wall + sample.boottime * 1_000_000) in
        rw (e, compare_sample)
          (
            λ h. let passed = branch.0 h in inr (same_boot, passed.0, passed.1),
            λ h. elim h [
              | inl (other, _) ↦ absurd (other same_boot)
              | inr (_, uptime, near) ↦ branch.1 (uptime, near)
            ],
          )
    | inr e ↦
        let other : boot_id ≢ sample.boot_id =
          λ same_boot. let seen = (text_eq_iff boot_id sample.boot_id).1 same_boot in cc in
        let branch = reboot_branch wall sample.wall.utc in
        rw (e, compare_sample)
          (
            λ h. inl (other, branch.0 h),
            λ h. elim h [
              | inl (_, ahead) ↦ branch.1 ahead
              | inr (same_boot, _, _) ↦ absurd (other same_boot)
            ],
          )
  ]
