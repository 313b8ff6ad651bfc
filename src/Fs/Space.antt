-- ===== src/Fs/Space.antt =====
-- The sizes of a partition, which calculateSpaceInfo of utils/PdmFs.cpp computes in uint64_t.
use native.Mathlib.Nat.{
  mod-eq_of_lt, div-lt_iff_lt-mul, div-mul-le_self, lt-div-mul-add, mul-le-mul_right,
}
use com_webos_service_pdm.Prelude.{
  ℕ, zero, suc, ◌+◌, ◌-◌, ◌*◌, ◌/◌, ◌%◌, ◌^◌, ◌==◌, ◌≤◌, ◌<◌, ltb, false, ◌≡◌, refl, sym, ◌⊎◌, inl,
  inr, arith, if◌then◌else◌,
}
use com_webos_service_pdm.Os.{Statfs}
use com_webos_service_pdm.Fs.{SpaceInfo, space_of}

-- The sizes in KiB that a file system of these counts has.
pub record IsSpaceOf (f : Statfs) (i : SpaceInfo) : Type 0 where
  pub whole : i.drive_size ≡ f.f_blocks * f.f_bsize / 1024
  pub adds_up : i.used_size + i.free_size ≡ i.drive_size
  pub rate_is_percent : i.used_rate ≤ 100
  pub rate_below : i.used_rate * i.drive_size ≤ i.used_size * 100
  pub rate_above : (i.drive_size ≡ 0) ⊎ (i.used_size * 100 < (i.used_rate + 1) * i.drive_size)

no_wrap : (n : ℕ) → n < 2 ^ 54 → n * 100 % 2 ^ 64 ≡ n * 100
no_wrap n h = mod-eq_of_lt (omega (arith, h))

rate_le_100 : (used drive : ℕ) → used ≤ drive → 0 < drive → used * 100 / drive ≤ 100
rate_le_100 used drive h p =
    omega
      (arith, (div-lt_iff_lt-mul {k = drive} {x = used * 100} {y = 101} p).1 (omega (arith, h, p)))

used_lem :
    (free drive : ℕ) → free ≤ drive → (if ltb free drive then drive - free else 0) ≡ drive - free
used_lem free drive h = ground arith

abbrev rate : ℕ → ℕ → ℕ
rate used drive = if drive == 0 then 0 else used * 100 % 2 ^ 64 / drive

suc_not_zero : (n : ℕ) → (suc n == 0) ≡ false
suc_not_zero n = ground arith

rate_lem :
    (used drive : ℕ)
    → used ≤ drive
    → drive < 2 ^ 54
    → (rate used drive ≤ 100)
      × (rate used drive * drive ≤ used * 100)
      × ((drive ≡ 0) ⊎ (used * 100 < (rate used drive + 1) * drive))
rate_lem used zero h lt = (omega arith, omega arith, inl refl)
rate_lem used (suc n) h lt =
    rw (suc_not_zero n, no_wrap used (omega (arith, h, lt)))
      (
        rate_le_100 used (suc n) h (omega arith),
        div-mul-le_self (used * 100) (suc n),
        inr (omega (arith, lt-div-mul-add {a = used * 100} {b = suc n} (omega arith))),
      )

-- The sizes of a whole drive and its free part, in KiB.
sizes_lem :
    (f : Statfs) (drive free : ℕ)
    → f.f_blocks * f.f_bsize / 1024 ≡ drive
    → f.f_blocks * f.f_bsize % 2 ^ 64 / 1024 ≡ drive
    → f.f_bavail * f.f_bsize % 2 ^ 64 / 1024 ≡ free
    → free ≤ drive
    → drive < 2 ^ 54
    → IsSpaceOf f (space_of f)
unfolding space_of
sizes_lem f drive free h d g le lt =
    let u = drive - free in
    let r = rate_lem u drive (omega arith) lt in
    rw (d, g, used_lem free drive le)
      (record {
        whole = sym h;
        adds_up = omega (arith, le);
        rate_is_percent = r.0;
        rate_below = r.1;
        rate_above = r.2;
      })

-- For a file system of less than 2^64 bytes whose available blocks are at most its blocks, the size
-- is the number of whole KiB it has, used and free size add up to it, and the rate is the
-- percentage that is used, rounded down and at most 100.
pub space_of-IsSpaceOf :
    (f : Statfs)
    → f.f_bavail ≤ f.f_blocks
    → f.f_blocks * f.f_bsize < 2 ^ 64
    → IsSpaceOf f (space_of f)
space_of-IsSpaceOf f le lt =
    let lt' : f.f_bavail * f.f_bsize < 2 ^ 64 = omega (arith, mul-le-mul_right f.f_bsize le, lt) in
    let q = mul-le-mul_right f.f_bsize le in
    sizes_lem f (f.f_blocks * f.f_bsize / 1024) (f.f_bavail * f.f_bsize / 1024) refl
      (rw (mod-eq_of_lt lt) refl) (rw (mod-eq_of_lt lt') refl) (omega (arith, q))
      (omega (arith, lt))
